-- ===== src/Rebalance/Durability.antt =====
-- The removal of dead replicas is complete, and costs no live one.
use qdrant_operator.Common.{
  ℕ, ◌==◌, ◌≤◌, ltb, leb, max, Text, true, false, not, ◌&&◌, some, List, [], ◌∷◌, ◌≡◌, refl, Memᴰ,
  arith, filter, sort, mem-filter_of, mem-map, mem-sort, mem-flat_map, Bool-cases, inl, inr, All,
  All-map, subst, sym,
}
use qdrant_operator.Qdrant.{ShardInfo, CollectionClusterInfo, is_dead}
use qdrant_operator.Rebalance.Observation.{
  Observation, find_text, rf_of, holds, holds_active, holds_dead,
}
use qdrant_operator.Rebalance.Repair.{
  distinct, dead_holders, dead_shards, drop_of, active_count, shard_drops, collection_drops,
  plan_dead_drops,
}
use qdrant_operator.Rebalance.Moves.{PlannedMove}
use qdrant_operator.Rebalance.RepairSafety.{IsDeadDrop, plan_dead_drops_safe}
use qdrant_operator.Rebalance.Completeness.{mem-walk}

pub mem-distinct : (ns : List ℕ) {n : ℕ} → Memᴰ n ns → Memᴰ n (distinct ns)
unfolding distinct
mem-distinct [] m = m
mem-distinct (x ∷ ns) (Memᴰ.head e) = Memᴰ.head e
mem-distinct (x ∷ ns) {n} (Memᴰ.tail m) = elim (Bool-cases (n == x)) [
  | inl e ↦ Memᴰ.head (ground arith)
  | inr e ↦ Memᴰ.tail (mem-filter_of _ (distinct ns) (mem-distinct ns m) (ground arith))
]

-- A dead replica of a shard with at least its factor (and one) of live replicas is in the plan.
pub plan_dead_drops_complete :
    (obs : Observation) (coll : Text) (cc : CollectionClusterInfo) (s : ShardInfo)
    → find_text coll obs.collections ≡ some cc
    → Memᴰ s cc.shards
    → is_dead s.state ≡ true
    → max (rf_of obs coll) 1 ≤ active_count cc.shards s.shard_id
    → Memᴰ (drop_of coll s.shard_id s.peer_id) (plan_dead_drops obs)
unfolding plan_dead_drops
plan_dead_drops_complete obs coll cc s e m d enough =
    mem-walk obs (λ c found. collection_drops (rf_of obs c) c found) coll cc
      (drop_of coll s.shard_id s.peer_id) e
      (unfold collection_drops in
        mem-flat_map (shard_drops (max (rf_of obs coll) 1) coll cc.shards) (dead_shards cc.shards)
          shard_listed dropped)
  where
    shard_listed : Memᴰ s.shard_id (dead_shards cc.shards)
    shard_listed =
        unfold dead_shards in
        mem-sort leb _ (
          mem-distinct _ (
            mem-map (λ (x : ShardInfo). x.shard_id) _
              (mem-filter_of (λ (x : ShardInfo). is_dead x.state) cc.shards m d)))

    holder_listed : Memᴰ s.peer_id (sort leb (dead_holders cc.shards s.shard_id))
    holder_listed =
        unfold dead_holders in
        mem-sort leb _ (
          mem-map (λ (x : ShardInfo). x.peer_id) _
            (mem-filter_of (λ (x : ShardInfo). is_dead x.state && x.shard_id == s.shard_id)
              cc.shards m (ground arith)))

    few : ltb (active_count cc.shards s.shard_id) (max (rf_of obs coll) 1) ≡ false
    few = ground arith

    dropped :
        Memᴰ
          (drop_of coll s.shard_id s.peer_id)
          (shard_drops (max (rf_of obs coll) 1) coll cc.shards s.shard_id)
    dropped =
        unfold shard_drops in
        rw few (
          mem-map (drop_of coll s.shard_id) (sort leb (dead_holders cc.shards s.shard_id))
            holder_listed)

-- What a finished drop does to the placement: the shard's entries on that peer go.
unfoldable pub without_replica : ℕ → ℕ → List ShardInfo → List ShardInfo
without_replica sid pid shards = filter (λ s. not (s.shard_id == sid && s.peer_id == pid)) shards

-- Where a replica is not live on the peer that drops it, no shard loses a live replica.
pub active_count-without_replica :
    (shards : List ShardInfo) (sid pid k : ℕ)
    → holds_active shards sid pid ≡ false
    → active_count (without_replica sid pid shards) k ≡ active_count shards k
unfolding without_replica active_count holds_active
active_count-without_replica [] sid pid k h = refl
active_count-without_replica (s ∷ shards) sid pid k h =
    ground (arith, active_count-without_replica shards sid pid k)

-- The effect of a finished drop: the dead replica is gone, no shard has lost a live one, and the shard
-- still has as many live replicas as its factor (and one).
pub record IsHarmless (obs : Observation) (m : PlannedMove) : Type 0 where
  pub cc : CollectionClusterInfo
  pub listed : find_text m.collection obs.collections ≡ some cc
  pub gone : holds (without_replica m.shard_id m.source cc.shards) m.shard_id m.source ≡ false
  pub none_lost :
      (k : ℕ)
      → active_count (without_replica m.shard_id m.source cc.shards) k ≡ active_count cc.shards k
  pub enough_left :
      max (rf_of obs m.collection) 1
      ≤ active_count (without_replica m.shard_id m.source cc.shards) m.shard_id

holds-without_replica :
    (shards : List ShardInfo) (sid pid : ℕ) → holds (without_replica sid pid shards) sid pid ≡ false
unfolding holds without_replica
holds-without_replica [] sid pid = refl
holds-without_replica (s ∷ shards) sid pid =
    elim (Bool-cases (s.shard_id == sid && s.peer_id == pid)) [
      | inl e ↦ rw e (holds-without_replica shards sid pid)
      | inr e ↦ rw (e, e) (holds-without_replica shards sid pid)
    ]

-- Where no peer has a shard both live and dead, every planned drop, once it is done, has removed the
-- dead replica, cost no shard a live one, and left the shard as many live replicas as its factor says.
pub plan_dead_drops-IsHarmless :
    (obs : Observation)
    → ((coll : Text) (cc : CollectionClusterInfo) (sid pid : ℕ)
        → find_text coll obs.collections ≡ some cc
        → holds_dead cc.shards sid pid ≡ true
        → holds_active cc.shards sid pid ≡ false)
    → All (IsHarmless obs) (plan_dead_drops obs)
plan_dead_drops-IsHarmless obs one_state =
    All-map (plan_dead_drops obs) (λ m d. harmless m d) (plan_dead_drops_safe obs)
  where
    harmless : (m : PlannedMove) → IsDeadDrop obs m → IsHarmless obs m
    harmless m d =
        let kept = λ (k : ℕ).
          active_count-without_replica d.cc.shards m.shard_id m.source k
            (one_state m.collection d.cc m.shard_id m.source d.listed d.dead) in
        record {
          cc = d.cc;
          listed = d.listed;
          gone = holds-without_replica d.cc.shards m.shard_id m.source;
          none_lost = kept;
          enough_left =
              subst (λ n. max (rf_of obs m.collection) 1 ≤ n) (sym (kept m.shard_id)) d.enough;
        }
