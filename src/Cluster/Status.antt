-- ===== src/Cluster/Status.antt =====
-- `reconcileStatus` of internal/controller/qdrantcluster_controller.go from the live StatefulSet on: the
-- phase, the conditions and the rebalance step; and the tests on the specification that `Reconcile`
-- makes (`authWithoutTLS`, and `tlsEnabled`, `tlsMisconfigured` of tls.go). Metrics are left out.
use qdrant_operator.Common.{
  ℕ, ◌==◌, ltb, Text, Bool, true, false, not, ◌&&◌, ◌||◌, Option, none, some, length, is_empty,
  if◌then◌else◌,
}
use qdrant_operator.Api.Conditions.{ConditionType, ConditionLib, Reason}
use qdrant_operator.Api.Cluster.{Phase, ClusterStatus, QdrantCluster}
use qdrant_operator.Pass.{Pass, Answers, update_status, called, set_status, set_condition, seconds}
use qdrant_operator.Rebalance.Observation.{Observation}
use qdrant_operator.Rebalance.Executor.{reconcile_rebalance}
use qdrant_operator.Upgrade.{StatefulSet, rollout_in_progress}
use qdrant_operator.Cluster.Observe.{Reads, observe}

unfoldable pub tls_enabled : QdrantCluster → Bool
tls_enabled qc =
    qc.spec.config.tls_enabled
    && (elim qc.spec.config.tls [ none ↦ false | some tls ↦ not (is_empty tls.secret_name) ])

unfoldable pub tls_misconfigured : QdrantCluster → Bool
tls_misconfigured qc = qc.spec.config.tls_enabled && not (tls_enabled qc)

abbrev is_some {ℓ} : {A : Type ℓ} → Option A → Bool
is_some none = false
is_some (some a) = true

unfoldable pub auth_without_tls : QdrantCluster → Bool
auth_without_tls qc =
    (is_some qc.spec.api_key || is_some qc.spec.read_only_api_key) && not qc.spec.config.tls_enabled

-- The live StatefulSet with its number of pods, the selector's text, and whether a status differs from
-- the one before in the sense of apimachinery's `Semantic.DeepEqual`.
pub record StatusInputs : Type 0 where
  pub now : ℕ
  pub conditions : ConditionLib
  pub answers : Answers
  pub reads : Reads
  pub live : StatefulSet
  pub live_replicas : ℕ
  pub selector : Text
  pub same_status : ClusterStatus → ClusterStatus → Bool

abbrev set_phase : Pass → Phase → Pass
set_phase p phase = let s = p.cluster.status in set_status p (record s { phase = phase })

abbrev pub is_rebalancing : Phase → Bool
is_rebalancing Phase.rebalancing = true
is_rebalancing _ = false

abbrev pub progress_after : ConditionLib → Pass → Phase → Pass
progress_after lib p phase =
    if is_rebalancing phase
    then set_condition lib p ConditionType.progressing true Reason.rebalancing
    else set_condition lib p ConditionType.progressing false Reason.stable

-- Pods ready and peers joined: the rebalance step has the last word on the phase.
unfoldable pub run_rebalance : StatusInputs → Pass → Observation → Pass × ℕ
run_rebalance inp p obs =
    let st = reconcile_rebalance inp.conditions inp.answers inp.now p obs in
    let q =
      set_condition inp.conditions (set_phase st.pass st.phase) ConditionType.ready true
        Reason.all_replicas_ready in
    (progress_after inp.conditions q st.phase, st.delay)

-- Ready pods, but qdrant is not observed or a peer has yet to join: nothing is planned.
unfoldable pub await_peers : StatusInputs → Pass → Pass × ℕ
await_peers inp p =
    let q =
      set_condition inp.conditions (set_phase p Phase.running) ConditionType.ready true
        Reason.all_replicas_ready in
    (set_condition inp.conditions q ConditionType.progressing true Reason.peers_joining, seconds 15)

unfoldable pub choose_phase : StatusInputs → Pass → Option Observation → Pass × ℕ
choose_phase inp p obs =
    let ready =
      inp.live.ready_replicas == p.cluster.spec.replicas && ltb 0 p.cluster.spec.replicas in
    if rollout_in_progress (some inp.live)
    then (
      set_condition inp.conditions (set_phase p Phase.upgrading) ConditionType.progressing true
          Reason.upgrading,
      seconds 15,
    )
    else if not ready
    then (
      set_condition inp.conditions (set_phase p Phase.provisioning) ConditionType.progressing true
          Reason.provisioning,
      seconds 15,
    )
    else elim obs [
      | none ↦ await_peers inp p
      | some o ↦
          if length o.peers == p.cluster.spec.replicas
          then run_rebalance inp p o
          else await_peers inp p
    ]

pub record StatusOutcome : Type 0 where
  pub pass : Pass
  pub requeue_after : ℕ
  pub failed : Bool

-- The status is written only where it changed.
unfoldable pub commit_status : StatusInputs → ClusterStatus → Pass × ℕ → StatusOutcome
commit_status inp before r =
    let s = r.0.cluster.status in
    if inp.same_status before s
    then record { pass = r.0; requeue_after = r.1; failed = false }
    else if inp.answers.status_update s
    then record { pass = called r.0 (update_status s); requeue_after = r.1; failed = false }
    else record { pass = called r.0 (update_status s); requeue_after = 0; failed = true }

unfoldable pub reconcile_status : StatusInputs → Pass → StatusOutcome
reconcile_status inp p =
    let s = p.cluster.status in
    let q = set_status p (record s {
      replicas = inp.live_replicas;
      ready_replicas = inp.live.ready_replicas;
      selector = inp.selector;
      observed_generation = p.cluster.generation;
      drain_status = none;
    }) in
    let o = observe inp.reads q.cluster in
    commit_status inp s (choose_phase inp (record q { cluster = o.0 }) o.1)
