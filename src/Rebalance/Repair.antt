-- ===== src/Rebalance/Repair.antt =====
-- `planReplications` and `planDeadDrops` of internal/controller/rebalance.go: new replicas for the
-- shards below their replication factor, and the removal of dead ones.
use qdrant_operator.Common.{
  ℕ, ◌==◌, ltb, leb, max, Text, Bool, true, false, not, ◌&&◌, ◌||◌, Option, none, some, List, [],
  ◌∷◌, map, length, any, count, filter, flat_map, if◌then◌else◌, sort,
}
use qdrant_operator.Qdrant.{Peer, ShardInfo, CollectionClusterInfo, is_active, is_dead}
use qdrant_operator.Rebalance.Observation.{Observation, find_text, rf_of, sorted_names, holds_dead}
use qdrant_operator.Rebalance.Moves.{PlannedMove}
use qdrant_operator.Rebalance.Planner.{shards_on}

-- The keys of a Go map: each number once.
unfoldable pub distinct : List ℕ → List ℕ
distinct [] = []
distinct (n ∷ ns) = n ∷ filter (λ m. not (m == n)) (distinct ns)

-- `holders[shard]`: the peers with an active replica.
unfoldable pub active_holders : List ShardInfo → ℕ → List ℕ
unfolding is_active
active_holders shards sid =
    map (λ (s : ShardInfo). s.peer_id) (filter (λ s. is_active s.state && s.shard_id == sid) shards)

unfoldable pub dead_holders : List ShardInfo → ℕ → List ℕ
unfolding is_dead
dead_holders shards sid =
    map (λ (s : ShardInfo). s.peer_id) (filter (λ s. is_dead s.state && s.shard_id == sid) shards)

-- The shards with an active replica, in order.
unfoldable pub active_shards : List ShardInfo → List ℕ
unfolding is_active sort distinct
active_shards shards =
    sort leb
      (distinct (map (λ (s : ShardInfo). s.shard_id) (filter (λ s. is_active s.state) shards)))

unfoldable pub dead_shards : List ShardInfo → List ℕ
unfolding is_dead sort distinct
dead_shards shards =
    sort leb (distinct (map (λ (s : ShardInfo). s.shard_id) (filter (λ s. is_dead s.state) shards)))

abbrev pub contains : List ℕ → ℕ → Bool
contains ns n = any (λ m. m == n) ns

-- The least loaded of the peers that pass the test, the lowest id of equals.
unfoldable pub pick_target : (ℕ → ℕ) → (ℕ → Bool) → List Peer → Option ℕ → Option ℕ
pick_target load skip [] found = found
pick_target load skip (p ∷ peers) found = pick_target load skip peers (
    if skip p.id then found else elim found [
      | none ↦ some p.id
      | some t ↦
          if ltb (load p.id) (load t) || (load p.id == load t && ltb p.id t)
          then some p.id
          else some t
    ])

unfoldable pub replication : List Peer → ℕ → Text → List ShardInfo → ℕ → List PlannedMove
unfolding active_holders holds_dead pick_target shards_on sort
replication peers rf coll shards sid =
    let holders = active_holders shards sid in
    if leb rf (length holders) then [] else elim (sort leb holders) [
      | [] ↦ []
      | source ∷ others ↦
          elim (pick_target (shards_on peers shards)
            (λ pid. contains (source ∷ others) pid || holds_dead shards sid pid) peers none) [
              | none ↦ []
              | some target ↦
                  record {
                    collection = coll;
                    shard_id = sid;
                    source = source;
                    target = target;
                    drop = false;
                    replicate = true;
                    from_count = 0;
                    to_count = 0;
                  }
                  ∷ []
            ]
    ]

-- A factor below two is left alone, and so is one that the peers cannot meet.
unfoldable pub collection_replications :
    List Peer → ℕ → Text → CollectionClusterInfo → List PlannedMove
unfolding replication active_shards
collection_replications peers rf coll cc =
    if ltb rf 2 || ltb (length peers) rf
    then []
    else flat_map (replication peers rf coll cc.shards) (active_shards cc.shards)

unfoldable pub plan_replications : Observation → List PlannedMove
unfolding collection_replications sorted_names rf_of find_text
plan_replications obs =
    flat_map
      (λ coll. elim (find_text coll obs.collections) [
        | none ↦ []
        | some cc ↦ collection_replications obs.peers (rf_of obs coll) coll cc
      ])
      (sorted_names obs)

abbrev pub drop_of : Text → ℕ → ℕ → PlannedMove
drop_of coll sid pid = record {
  collection = coll;
  shard_id = sid;
  source = pid;
  target = 0;
  drop = true;
  replicate = false;
  from_count = 0;
  to_count = 0;
}

-- `active[shard]`.
unfoldable pub active_count : List ShardInfo → ℕ → ℕ
unfolding is_active
active_count shards sid = count (λ s. is_active s.state && s.shard_id == sid) shards

-- The dead replicas of a shard go once enough active ones are there.
unfoldable pub shard_drops : ℕ → Text → List ShardInfo → ℕ → List PlannedMove
unfolding active_count dead_holders sort
shard_drops rf coll shards sid =
    if ltb (active_count shards sid) rf
    then []
    else map (drop_of coll sid) (sort leb (dead_holders shards sid))

unfoldable pub collection_drops : ℕ → Text → CollectionClusterInfo → List PlannedMove
unfolding shard_drops dead_shards
collection_drops rf coll cc =
    flat_map (shard_drops (max rf 1) coll cc.shards) (dead_shards cc.shards)

unfoldable pub plan_dead_drops : Observation → List PlannedMove
unfolding collection_drops sorted_names rf_of find_text
plan_dead_drops obs =
    flat_map
      (λ coll. elim (find_text coll obs.collections) [
        | none ↦ []
        | some cc ↦ collection_drops (rf_of obs coll) coll cc
      ])
      (sorted_names obs)
