-- ===== src/Upgrade.antt =====
-- internal/controller/upgrade.go: the Raft-aware rolling upgrade, one ordinal at a time; `gateRollout`,
-- which applies it, is in Cluster.Reconcile. A StatefulSet is the part of it that the code reads; int32
-- counts are non-negative.
pub mod Order
mod Tests
use qdrant_operator.Common.{
  ℕ, ◌-◌, ◌==◌, Text, Bool, false, not, ◌&&◌, Option, none, some, length, is_empty, text_eq,
  if◌then◌else◌,
}
use qdrant_operator.Rebalance.Observation.{Observation, transitioning, transfers_in_flight}

pub record StatefulSet : Type 0 where
  pub update_revision : Text
  pub current_revision : Text
  pub updated_replicas : ℕ
  pub ready_replicas : ℕ

unfoldable pub rollout_in_progress : Option StatefulSet → Bool
rollout_in_progress none = false
rollout_in_progress (some live) =
    not (is_empty live.update_revision) && not (text_eq live.update_revision live.current_revision)

-- All pods ready, all peers back in consensus, nothing moving and no shard in transition.
unfoldable pub upgrade_ready : Option StatefulSet → ℕ → Option Observation → Bool
upgrade_ready none replicas obs = false
upgrade_ready (some live) replicas none = false
upgrade_ready (some live) replicas (some obs) =
    (live.ready_replicas == replicas && length obs.peers == replicas)
    && (not (transitioning obs) && transfers_in_flight obs == 0)

abbrev updated_of : Option StatefulSet → ℕ
updated_of none = 0
updated_of (some live) = live.updated_replicas

-- Pods from the partition up are on the new revision. `max(…, 0)` is what `-` does.
unfoldable pub upgrade_partition : Option StatefulSet → ℕ → Option Observation → ℕ
upgrade_partition live replicas obs =
    let frozen = replicas - updated_of live in
    if not (rollout_in_progress live)
    then 0
    else if not (upgrade_ready live replicas obs)
    then frozen
    else frozen - 1
