-- ===== src/Rebalance/Facts.antt =====
-- What the tests on shard lists say of their entries, and the planners' walk over the collections.
use qdrant_operator.Common.{
  ℕ, Text, true, none, some, List, [], ◌∷◌, ◌≡◌, Memᴰ, arith, All, All-flat_map, any_of_mem, inl,
  inr, Option-cases, flat_map,
}
use qdrant_operator.Qdrant.{Peer, ShardInfo, CollectionClusterInfo, is_active, is_dead}
use qdrant_operator.Rebalance.Observation.{
  Observation, find_text, holds, holds_active, holds_dead, is_member,
}
use qdrant_operator.Rebalance.Moves.{PlannedMove}

pub holds-of_mem :
    (s : ShardInfo) (shards : List ShardInfo)
    → Memᴰ s shards
    → holds shards s.shard_id s.peer_id ≡ true
unfolding holds
holds-of_mem s shards m = any_of_mem _ shards m (ground arith)

pub holds_dead-of_mem :
    (s : ShardInfo) (shards : List ShardInfo)
    → Memᴰ s shards
    → is_dead s.state ≡ true
    → holds_dead shards s.shard_id s.peer_id ≡ true
unfolding holds_dead
holds_dead-of_mem s shards m h = any_of_mem _ shards m (ground arith)

pub holds_active-of_mem :
    (s : ShardInfo) (shards : List ShardInfo)
    → Memᴰ s shards
    → is_active s.state ≡ true
    → holds_active shards s.shard_id s.peer_id ≡ true
unfolding holds_active
holds_active-of_mem s shards m h = any_of_mem _ shards m (ground arith)

pub holds_active-holds :
    (shards : List ShardInfo) (sid pid : ℕ)
    → holds_active shards sid pid ≡ true
    → holds shards sid pid ≡ true
unfolding holds holds_active
holds_active-holds [] sid pid h = h
holds_active-holds (s ∷ shards) sid pid h = ground (arith, holds_active-holds shards sid pid)

pub is_member-of_mem : (p : Peer) (peers : List Peer) → Memᴰ p peers → is_member peers p.id ≡ true
unfolding is_member
is_member-of_mem p peers m = any_of_mem _ peers m (ground arith)

abbrev pub Shards : Type 0
Shards = List ShardInfo

-- A fact of every move that a collection's planner makes holds of the whole plan.
pub All-walk :
    (P : PlannedMove → Type 0) (obs : Observation)
    (plan : Text → CollectionClusterInfo → List PlannedMove) (names : List Text)
    → ((coll : Text) (cc : CollectionClusterInfo)
        → find_text coll obs.collections ≡ some cc
        → All P (plan coll cc))
    → All P (
        flat_map
          (λ coll. elim (find_text coll obs.collections) [ none ↦ [] | some cc ↦ plan coll cc ])
          names)
All-walk P obs plan names f = All-flat_map P _ names λ coll m.
    elim (Option-cases (find_text coll obs.collections)) [
      | inl e ↦ rw e tt
      | inr (cc, e) ↦ rw e (f coll cc e)
    ]
