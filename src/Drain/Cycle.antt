-- ===== src/Drain/Cycle.antt =====
-- `reconcileDrainCycle` of internal/controller/drain.go: one pass, from the observation to at most one
-- shard operation, one removal of a peer and one step down of the StatefulSet.
use qdrant_operator.Common.{
  ℕ, ◌-◌, ltb, leb, Text, Bool, true, false, not, ◌&&◌, Option, none, some, List, [], ◌∷◌, map,
  take, any, filter, if◌then◌else◌, sort, text_eq, format_uint,
}
use qdrant_operator.Qdrant.{Peer}
use qdrant_operator.Api.Conditions.{ConditionLib, Reason}
use qdrant_operator.Api.Conditions
use qdrant_operator.Api.Cluster.{Phase, Kind, DrainStatus, QdrantCluster}
use qdrant_operator.Api.Collection.{QdrantCollection}
use qdrant_operator.Pass.{
  Pass, Answers, remove_peer, update_replicas, update_status, event, called, set_status,
  set_condition, seconds, minutes,
}
use qdrant_operator.Rebalance.Observation.{Observation, find_id, all_shards_active}
use qdrant_operator.Rebalance.Moves.{PlannedMove, move_string}
use qdrant_operator.Rebalance.Backoff.{backoff, add_int32}
use qdrant_operator.Rebalance.Executor.{Settlement, settled, settle_active_move, issue_active_move}
use qdrant_operator.Drain.Ordinals.{peer_ordinals}
use qdrant_operator.Drain.Plan.{DrainPlan, plan_peer_drain}

-- The StatefulSet as it lives in the cluster.
pub record LiveSet : Type 0 where
  pub spec_replicas : ℕ
  pub replicas : ℕ
  pub ready_replicas : ℕ

-- What the pass is given: the time, the answers of apiserver and qdrant, the parse of URIs, the
-- StatefulSet, and the QdrantCollections of the namespace, none where listing them fails.
pub record Inputs : Type 0 where
  pub now : ℕ
  pub answers : Answers
  pub hostname : Text → Option Text
  pub live : LiveSet
  pub collections : Option (List QdrantCollection)

abbrev pub drain_base : Pass → ℕ → DrainStatus
drain_base p now = elim p.cluster.status.drain_status [
  | some ds ↦ ds
  | none ↦ record {
    target_replicas = 0;
    current_replicas = 0;
    peers = [];
    pending_moves = [];
    started_at = now;
  }
]

-- The plan and the phase are published before anything is done; a failed update is ignored.
unfoldable pub publish_drain_status : ℕ → Pass → ℕ → ℕ → Option Peer → List PlannedMove → Pass
publish_drain_status now p cur tgt target moves =
    let s = p.cluster.status in
    let ds : DrainStatus = record {
      target_replicas = tgt;
      current_replicas = cur;
      peers = elim target [ none ↦ [] | some t ↦ format_uint t.id ∷ [] ];
      pending_moves = map move_string (take 10 moves);
      started_at = (drain_base p now).started_at;
    } in
    let s' = record s { drain_status = some ds; phase = Phase.draining } in
    called (set_status p s') (update_status s')

abbrev is_resharding : QdrantCluster → QdrantCollection → Bool
is_resharding qc c =
    text_eq c.spec.cluster_ref qc.name && (elim c.status.reshard [ none ↦ false | some r ↦ true ])

-- Where the collections cannot be listed, none is taken to be resharding.
unfoldable pub reshard_active : QdrantCluster → Option (List QdrantCollection) → Bool
reshard_active qc none = false
reshard_active qc (some cols) = any (is_resharding qc) cols

pub record Outcome : Type 0 where
  pub pass : Pass
  pub requeue_after : ℕ
  pub failed : Bool

abbrev pub requeue : Pass → ℕ → Outcome
requeue p d = record { pass = p; requeue_after = d; failed = false }

-- `shrinkOne` and its event; an error of the update ends the pass.
unfoldable pub shrink_one : Answers → Pass → ℕ → Outcome
shrink_one answers p to =
    let q = called p (update_replicas to) in
    if answers.replicas_update to
    then requeue (called q (event Conditions.Reason.drain_shrunk)) (seconds 5)
    else record { pass = q; requeue_after = 0; failed = true }

-- A condition that says why the drain stands still, written at once.
abbrev pub hold : ConditionLib → Pass → ℕ → Outcome
hold lib p d =
    let q =
      set_condition lib p Conditions.ConditionType.degraded true Conditions.Reason.drain_blocked in
    requeue (called q (update_status q.cluster.status)) d

-- The target is empty: out of consensus, never by force, and only then one ordinal down.
unfoldable pub remove_and_shrink : ConditionLib → Inputs → Pass → Peer → Outcome
remove_and_shrink lib inp p target =
    let q = called p (remove_peer target.id false) in
    let s = q.cluster.status in
    let level = add_int32 s.move_backoff 1 in
    if inp.answers.shard_operation (remove_peer target.id false)
    then shrink_one inp.answers (called q (event Conditions.Reason.drain_peer_removed))
        (inp.live.spec_replicas - 1)
    else hold lib (set_status q (record s { move_backoff = level })) (backoff level)

-- Peers whose ordinal stays: the others are no place for a shard.
unfoldable pub keepers_of : ℕ → List (ℕ × Peer) → List Peer
keepers_of tgt ordinals =
    sort (λ (a b : Peer). leb a.id b.id)
      (map (λ (e : ℕ × Peer). e.1) (filter (λ e. ltb e.0 tgt) ordinals))

unfoldable pub follow_plan : ConditionLib → Inputs → Pass → Peer → DrainPlan → Outcome
follow_plan lib inp p target plan =
    let q =
      publish_drain_status inp.now p inp.live.spec_replicas p.cluster.spec.replicas (some target)
        plan.moves in
    if plan.blocked
    then hold lib q (minutes 1)
    else if plan.wait
    then requeue q (seconds 10)
    else elim plan.moves [
      | mv ∷ mvs ↦
          let issued = issue_active_move lib inp.answers inp.now q mv Kind.drain in
          requeue issued.0 issued.1
      | [] ↦ remove_and_shrink lib inp q target
    ]

-- The highest ordinal is in consensus: wait for the shards, then plan.
unfoldable pub drain_target :
    ConditionLib → Inputs → Pass → Observation → List (ℕ × Peer) → Peer → Outcome
drain_target lib inp p obs ordinals target =
    let tgt = p.cluster.spec.replicas in
    if not (all_shards_active obs)
    then requeue (publish_drain_status inp.now p inp.live.spec_replicas tgt (some target) [])
        (seconds 10)
    else follow_plan lib inp p target
        (plan_peer_drain target (keepers_of tgt ordinals) obs.collections)

unfoldable pub drain_ordinals :
    ConditionLib → Inputs → Pass → Observation → Option (List (ℕ × Peer)) → Outcome
drain_ordinals lib inp p obs none =
    hold lib (publish_drain_status inp.now p inp.live.spec_replicas p.cluster.spec.replicas none [])
      (minutes 1)
drain_ordinals lib inp p obs (some ordinals) =
    elim (find_id (inp.live.spec_replicas - 1) ordinals) [
      | none ↦ shrink_one inp.answers p (inp.live.spec_replicas - 1)
      | some target ↦ drain_target lib inp p obs ordinals target
    ]

-- Once the lane is settled.
unfoldable pub drain_settled : ConditionLib → Inputs → Pass → Observation → Outcome
drain_settled lib inp p obs =
    if reshard_active p.cluster inp.collections
    then requeue
        (publish_drain_status inp.now p inp.live.spec_replicas p.cluster.spec.replicas none [])
        (seconds 15)
    else drain_ordinals lib inp p obs (peer_ordinals inp.hostname obs.peers)

unfoldable pub drain_after : ConditionLib → Inputs → Settlement → Observation → Outcome
drain_after lib inp st obs = elim st.state [
  | settled ↦ drain_settled lib inp st.pass obs
  | _ ↦
      requeue
        (publish_drain_status inp.now st.pass inp.live.spec_replicas st.pass.cluster.spec.replicas
          none [])
        st.delay
]

-- `obs` is the result of `observe`, none where qdrant could not be read; the pass holds what `observe`
-- wrote to the status.
unfoldable pub reconcile_drain_cycle : ConditionLib → Inputs → Pass → Option Observation → Outcome
reconcile_drain_cycle lib inp p none =
    hold lib (publish_drain_status inp.now p inp.live.spec_replicas p.cluster.spec.replicas none [])
      (seconds 30)
reconcile_drain_cycle lib inp p (some obs) =
    let s = p.cluster.status in
    let q =
      set_status p
        (record s { replicas = inp.live.replicas; ready_replicas = inp.live.ready_replicas }) in
    drain_after lib inp (settle_active_move lib inp.now q obs) obs
