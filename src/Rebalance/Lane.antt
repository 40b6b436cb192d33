-- ===== src/Rebalance/Lane.antt =====
-- The lane of one move at a time: completion, loss, issue, and what a step may send to qdrant.
use qdrant_operator.Common.{
  ℕ, ◌+◌, ◌≤◌, ◌<◌, ◌^◌, not, ◌&&◌, none, some, ◌≡◌, arith, Option-cases, inl, inr, ◌⊎◌,
  parse_uint-format_uint, if◌then◌else◌,
}
use qdrant_operator.Qdrant.{CollectionClusterInfo}
use qdrant_operator.Api.Conditions.{ConditionLib}
use qdrant_operator.Api.Cluster.{Kind, MoveStatus}
use qdrant_operator.Pass.{Pass, set_condition, seconds}
use qdrant_operator.Rebalance.Observation.{
  Observation, find_text, transfers_in_flight, holds, holds_active,
}
use qdrant_operator.Rebalance.Moves.{PlannedMove}
use qdrant_operator.Rebalance.Executor.{
  active_move_completed, is_replicate, lost, settled, settle_record, settle_active_move,
  move_record,
}

-- The record of an issued move is complete exactly when its effect is in the placement: a drop when
-- the source holds the shard no more, a replication when the target is active, a move when both are so.
-- Peer ids are below 2 ^ 64, and the kind Replicate goes with replications alone.
pub completed-move_record :
    (obs : Observation) (now : ℕ) (mv : PlannedMove) (kind : Kind) (cc : CollectionClusterInfo)
    → is_replicate kind ≡ mv.replicate
    → mv.source < 2 ^ 64
    → mv.target < 2 ^ 64
    → find_text mv.collection obs.collections ≡ some cc
    → active_move_completed obs (move_record now mv kind) ≡ (
        if mv.drop
        then not (holds cc.shards mv.shard_id mv.source)
        else (if mv.replicate
            then holds_active cc.shards mv.shard_id mv.target
            else holds_active cc.shards mv.shard_id mv.target
              && not (holds cc.shards mv.shard_id mv.source)))
unfolding active_move_completed move_record
completed-move_record obs now mv kind cc k s t e =
    ground (arith, k, e, parse_uint-format_uint mv.source s, parse_uint-format_uint mv.target t)

-- With no transfer in flight, a move that was issued at least a minute ago never stays in the lane: it
-- is settled or given up, and a step can plan anew.
pub settle_frees_lane :
    (lib : ConditionLib) (now : ℕ) (p : Pass) (obs : Observation) (am : MoveStatus)
    → transfers_in_flight obs ≡ 0
    → p.cluster.status.active_move ≡ some am
    → ((t : ℕ) → am.issued_at ≡ some t → t + seconds 60 ≤ now)
    → ((settle_active_move lib now p obs).pass.cluster.status.active_move ≡ none)
      × (((settle_active_move lib now p obs).state ≡ settled)
          ⊎ ((settle_active_move lib now p obs).state ≡ lost))
unfolding settle_active_move settle_record set_condition
settle_frees_lane lib now p obs am calm e old = elim (Option-cases am.issued_at) [
  | inl n ↦ ground (arith, n)
  | inr (t, i) ↦ ground (arith, i, old t i)
]
