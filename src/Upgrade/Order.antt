-- ===== src/Upgrade/Order.antt =====
-- The order of a rolling upgrade: how far the partition of one pass may be from the last.
use qdrant_operator.Common.{
  ℕ, suc, ◌+◌, ◌-◌, ◌≤◌, true, false, Option, none, some, ◌≡◌, refl, arith, length,
}
use qdrant_operator.Rebalance.Observation.{Observation, transitioning, transfers_in_flight}
use qdrant_operator.Upgrade.{StatefulSet, rollout_in_progress, upgrade_ready, upgrade_partition}

-- During a rollout the partition lets at most one more pod go than are updated already, and takes none
-- back: with `updated` pods on the new revision, between `updated` and `updated + 1` are at or above
-- it, of the replicas there are.
pub partition_one_at_a_time :
    (live : StatefulSet) (replicas : ℕ) (obs : Option Observation)
    → rollout_in_progress (some live) ≡ true
    → (upgrade_partition (some live) replicas obs ≤ replicas - live.updated_replicas)
      × (replicas ≤ upgrade_partition (some live) replicas obs + live.updated_replicas + 1)
unfolding upgrade_partition
partition_one_at_a_time live replicas obs r = ground (arith, r)

advance-ready :
    (live : StatefulSet) (replicas : ℕ) (obs : Option Observation)
    → rollout_in_progress (some live) ≡ true
    → suc (upgrade_partition (some live) replicas obs) ≡ replicas - live.updated_replicas
    → upgrade_ready (some live) replicas obs ≡ true
unfolding upgrade_partition
advance-ready live replicas obs r e = ground (arith, r)

-- All that a pod waits for before it is let go.
abbrev pub IsReady : StatefulSet → ℕ → Option Observation → Type 0
IsReady live replicas obs =
    (o : Observation) × (obs ≡ some o)
    × (live.ready_replicas ≡ replicas)
    × (length o.peers ≡ replicas)
    × (transfers_in_flight o ≡ 0)
    × (transitioning o ≡ false)

IsReady-facts :
    (live : StatefulSet) (replicas : ℕ) (obs : Option Observation)
    → upgrade_ready (some live) replicas obs ≡ true
    → IsReady live replicas obs
unfolding upgrade_ready
IsReady-facts live replicas none r = ground (arith, r)
IsReady-facts live replicas (some o) r =
    (o, refl, ground (arith, r), ground (arith, r), ground (arith, r), ground (arith, r))

-- Where the partition is below the pods that are still to be updated, the rollout has what it waits for.
pub partition_advance-IsReady :
    (live : StatefulSet) (replicas : ℕ) (obs : Option Observation)
    → rollout_in_progress (some live) ≡ true
    → suc (upgrade_partition (some live) replicas obs) ≡ replicas - live.updated_replicas
    → IsReady live replicas obs
partition_advance-IsReady live replicas obs r e =
    IsReady-facts live replicas obs (advance-ready live replicas obs r e)
