-- ===== src/Cluster/Reconcile.antt =====
-- `Reconcile` and `gateRollout` of internal/controller/qdrantcluster_controller.go: the order of a whole
-- pass over a QdrantCluster, from the children to the status. Metrics are left out.
use qdrant_operator.Common.{
  ℕ, ltb, Text, Bool, true, false, not, Option, none, some, List, [], ◌∷◌, ◌++◌, map, if◌then◌else◌,
}
use qdrant_operator.Api.Conditions.{ConditionType, ConditionLib, Reason}
use qdrant_operator.Api.Cluster.{Phase, QdrantCluster}
use qdrant_operator.Pass.{Pass, update_status, event, called, set_status, set_condition, seconds}
use qdrant_operator.NodeFailure.{Pod, NodeLookup, Deletion, reconcile_stuck_pods}
use qdrant_operator.Upgrade
use qdrant_operator.Upgrade.{rollout_in_progress, upgrade_partition}
use qdrant_operator.Drain.Cycle
use qdrant_operator.Drain.Cycle.{reconcile_drain_cycle}
use qdrant_operator.Resources.{own_name}
use qdrant_operator.Resources.ConfigFile.{build_config_map}
use qdrant_operator.Resources.Objects.{
  build_headless_service, build_client_service, build_service_account, PodDisruptionBudget,
  build_pod_disruption_budget,
}
use qdrant_operator.Resources.StatefulSet.{StatefulSet, build_stateful_set}
use qdrant_operator.Cluster.Observe.{Reads, observe}
use qdrant_operator.Cluster.Status.{
  StatusInputs, reconcile_status, tls_misconfigured, auth_without_tls,
}
use qdrant_operator.Cluster.Apply.{
  Child, service_account, config_map, service, budget, stateful_set, KubeCall, delete_budget,
  delete_pod, pass_call, ApplyAnswers, Applied, apply_owned, apply_all, LiveSts, Equalities,
  sts_immutable_changed,
}

pub data ClusterLookup : Type 0 where
  found : QdrantCluster → ClusterLookup
  not_found failed : ClusterLookup

-- What a pass is given. `live` is none where the StatefulSet cannot be read, `status_inputs` where it
-- cannot be read again for the status.
pub record Inputs : Type 0 where
  pub now : ℕ
  pub conditions : ConditionLib
  pub sha256 : Text → Text
  pub cluster : ClusterLookup
  pub pods : Option (List Pod)
  pub nodes : Text → NodeLookup
  pub delete_pod : Pod → Deletion
  pub apply : ApplyAnswers
  pub live : Option LiveSts
  pub equalities : Equalities
  pub reads : Reads
  pub drain : Cycle.Inputs
  pub status_inputs : Option StatusInputs

pub record Outcome : Type 0 where
  pub calls : List KubeCall
  pub requeue_after : ℕ
  pub failed : Bool

abbrev pub stop : List KubeCall → ℕ → Bool → Outcome
stop calls d bad = record { calls = calls; requeue_after = d; failed = bad }

abbrev pub start : QdrantCluster → Pass
start qc = record { cluster = qc; calls = [] }

abbrev pub sent : Pass → List KubeCall
sent p = map pass_call p.calls

-- The condition is set on what was observed, an event says so, and the status is written, whatever
-- the answer.
unfoldable pub degrade : ConditionLib → Pass → Reason → Pass
degrade lib p reason =
    called (set_condition lib p ConditionType.degraded true reason) (event reason)

-- A drain that was going on is said to stand still.
abbrev pub pause_drain : Pass → Pass
pause_drain p =
    let s = p.cluster.status in
    elim s.drain_status [ none ↦ p | some d ↦ set_status p (record s { phase = Phase.draining }) ]

abbrev pub commit : Pass → Pass
commit p = called p (update_status p.cluster.status)

unfoldable pub immutable_drift : Inputs → QdrantCluster → Outcome
immutable_drift inp qc =
    let seen = observe inp.reads qc in
    let p = degrade inp.conditions (start seen.0) Reason.immutable_field_changed in
    stop (sent (commit (pause_drain p))) 0 false

unfoldable pub missing_certificate : Inputs → QdrantCluster → Outcome
missing_certificate inp qc =
    let seen = observe inp.reads qc in
    let p = degrade inp.conditions (start seen.0) Reason.tls_secret_missing in
    stop (sent (commit p)) (seconds 30) false

-- The drain works on the set that was read.
abbrev pub drain_inputs : Inputs → LiveSts → Cycle.Inputs
drain_inputs inp live =
    let d = inp.drain in
    record d {
      now = inp.now;
      live = record {
        spec_replicas = elim live.spec_replicas [ none ↦ 0 | some n ↦ n ];
        replicas = live.status_replicas;
        ready_replicas = live.status.ready_replicas;
      };
    }

unfoldable pub drain_cycle : Inputs → QdrantCluster → LiveSts → Outcome
drain_cycle inp qc live =
    let seen = observe inp.reads qc in
    let out = reconcile_drain_cycle inp.conditions (drain_inputs inp live) (start seen.0) seen.1 in
    stop (sent out.pass) out.requeue_after out.failed

-- `reconcileStatus`, or the error of its read.
unfoldable pub finish_status : QdrantCluster → Option StatusInputs → Outcome
finish_status qc none = stop [] 0 true
finish_status qc (some si) =
    let out = reconcile_status si (start qc) in stop (sent out.pass) out.requeue_after out.failed

abbrev pub upgrade_of : Option LiveSts → Option Upgrade.StatefulSet
upgrade_of none = none
upgrade_of (some live) = some live.status

-- `gateRollout`: the observation is taken, and the partition is written to the rendered set.
unfoldable pub gate_rollout : Inputs → QdrantCluster → Option LiveSts → StatefulSet → StatefulSet
gate_rollout inp qc live desired =
    let seen = observe inp.reads qc in
    let partition' = upgrade_partition (upgrade_of live) qc.spec.replicas seen.1 in
    elim desired.partition [
      | none ↦ desired
      | some old ↦ record desired { partition = some partition' }
    ]

-- The set is applied, then the status is brought up to date. In a rollout the pass comes back by
-- itself, whatever the status would have it wait, and works on with the observed peers.
unfoldable pub apply_sts : Inputs → QdrantCluster → StatefulSet → Option ℕ → Outcome
apply_sts inp qc desired wait =
    let applied = apply_owned inp.apply (stateful_set desired) in
    let out = finish_status qc inp.status_inputs in
    if not applied.1
    then stop applied.0 0 true
    else if out.failed
    then stop (applied.0 ++ out.calls) 0 true
    else stop (applied.0 ++ out.calls) (elim wait [ none ↦ out.requeue_after | some d ↦ d ]) false

-- A key over plain HTTP is worth a warning, and no more.
abbrev pub warn_plain : QdrantCluster → List KubeCall
warn_plain qc = if auth_without_tls qc then pass_call (event Reason.auth_without_tls) ∷ [] else []

abbrev pub prefixed : List KubeCall → Outcome → Outcome
prefixed calls out = stop (calls ++ out.calls) out.requeue_after out.failed

-- Past the guards. The observation of `gateRollout` stays in the object's status.
unfoldable pub roll_out : Inputs → QdrantCluster → Option LiveSts → StatefulSet → Outcome
roll_out inp qc live desired =
    if rollout_in_progress (upgrade_of live)
    then apply_sts inp (observe inp.reads qc).0 (gate_rollout inp qc live desired)
        (some (seconds 15))
    else apply_sts inp qc desired none

unfoldable pub apply_guarded : Inputs → QdrantCluster → Option LiveSts → StatefulSet → Outcome
apply_guarded inp qc live desired =
    if tls_misconfigured qc
    then missing_certificate inp qc
    else prefixed (warn_plain qc) (roll_out inp qc live desired)

abbrev pub is_scale_in : QdrantCluster → LiveSts → Bool
is_scale_in qc live = elim live.spec_replicas [ none ↦ false | some n ↦ ltb qc.spec.replicas n ]

-- The guards before the set is touched.
unfoldable pub guard_sts : Inputs → QdrantCluster → Option LiveSts → StatefulSet → Outcome
guard_sts inp qc none desired = apply_guarded inp qc none desired
guard_sts inp qc (some live) desired =
    if sts_immutable_changed inp.equalities live desired
    then immutable_drift inp qc
    else if is_scale_in qc live
    then drain_cycle inp qc live
    else apply_guarded inp qc (some live) desired

-- A budget to apply, or a stale one to delete.
abbrev pub budget_child : Option PodDisruptionBudget → List Child
budget_child none = []
budget_child (some b) = budget b ∷ []

abbrev pub stale_budget : QdrantCluster → Option PodDisruptionBudget → List KubeCall
stale_budget qc none = delete_budget (own_name qc) ∷ []
stale_budget qc (some b) = []

abbrev pub tried_pod : Option Pod → List KubeCall
tried_pod none = []
tried_pod (some pod) = delete_pod pod.name ∷ []

abbrev pub children_of : QdrantCluster → List Child
children_of qc =
    service_account (build_service_account qc)
    ∷ config_map (build_config_map qc)
    ∷ service (build_headless_service qc)
    ∷ service (build_client_service qc)
    ∷ budget_child (build_pod_disruption_budget qc)

-- What stands before the children: a stuck pod, and a budget that a single replica must not have.
abbrev pub first_steps : Inputs → QdrantCluster → List KubeCall
first_steps inp qc =
    tried_pod (reconcile_stuck_pods qc.spec.replicas inp.pods inp.nodes inp.now inp.delete_pod).1
    ++ stale_budget qc (build_pod_disruption_budget qc)

-- An error among the children ends the pass before the StatefulSet.
abbrev pub proceed : List KubeCall → Applied → Outcome → Outcome
proceed before applied out =
    if applied.1 then prefixed (before ++ applied.0) out else stop (before ++ applied.0) 0 true

unfoldable pub reconcile_found : Inputs → QdrantCluster → Outcome
reconcile_found inp qc =
    proceed (first_steps inp qc) (apply_all inp.apply (children_of qc))
      (guard_sts inp qc inp.live (build_stateful_set inp.sha256 qc))

-- An object that is gone needs nothing.
unfoldable pub reconcile_with : Inputs → ClusterLookup → Outcome
reconcile_with inp (found qc) = reconcile_found inp qc
reconcile_with inp not_found = stop [] 0 false
reconcile_with inp failed = stop [] 0 true

unfoldable pub reconcile : Inputs → Outcome
unfolding reconcile_with
reconcile inp = reconcile_with inp inp.cluster
