-- ===== src/Rebalance/Planner.antt =====
-- `planRebalance` of internal/controller/rebalance.go: every move from a peer that holds at least two
-- shards more of a collection than the recipient, in a total order.
use qdrant_operator.Common.{
  ℕ, ◌+◌, ◌==◌, ltb, leb, Text, false, not, ◌&&◌, ◌||◌, none, some, List, [], ◌∷◌, map, length,
  count, filter, flat_map, if◌then◌else◌, sort,
}
use qdrant_operator.Qdrant.{Peer, ShardInfo, CollectionClusterInfo}
use qdrant_operator.Rebalance.Observation.{
  Observation, find_text, sorted_names, has_dead, holds, is_member,
}
use qdrant_operator.Rebalance.Moves.{PlannedMove, move_leb}
use qdrant_operator.Rebalance.SizePlanner.{plan_size_rebalance}

-- `count[peer]`: the shards of the collection on a known peer.
unfoldable pub shards_on : List Peer → List ShardInfo → ℕ → ℕ
unfolding is_member
shards_on peers shards pid = count (λ s. is_member peers s.peer_id && s.peer_id == pid) shards

-- The shards that the donor holds and the recipient does not, in order.
unfoldable pub movable : List ShardInfo → ℕ → ℕ → List ℕ
unfolding holds sort
movable shards donor recip = sort leb (
    map (λ (s : ShardInfo). s.shard_id)
      (filter (λ s. s.peer_id == donor && not (holds shards s.shard_id recip)) shards))

unfoldable pub candidate : List Peer → Text → CollectionClusterInfo → ℕ → ℕ → List PlannedMove
unfolding shards_on movable
candidate peers coll cc donor recip =
    let donor_count = shards_on peers cc.shards donor in
    let recip_count = shards_on peers cc.shards recip in
    if donor == recip || ltb donor_count (recip_count + 2)
    then []
    else elim (movable cc.shards donor recip) [
      | [] ↦ []
      | sid ∷ rest ↦
          record {
            collection = coll;
            shard_id = sid;
            source = donor;
            target = recip;
            drop = false;
            replicate = false;
            from_count = donor_count;
            to_count = recip_count;
          }
          ∷ []
    ]

unfoldable pub candidates : List Peer → Text → CollectionClusterInfo → List PlannedMove
unfolding candidate
candidates peers coll cc =
    flat_map (λ donor. flat_map (λ recip. candidate peers coll cc donor.id recip.id) peers) peers

-- The moves of every collection, in the order of their names.
unfoldable pub count_plan : Observation → List PlannedMove
unfolding candidates sorted_names find_text
count_plan obs =
    flat_map
      (λ coll. elim (find_text coll obs.collections) [
        | none ↦ []
        | some cc ↦ candidates obs.peers coll cc
      ])
      (sorted_names obs)

-- The count stage wins; the sizes are weighed only when it has nothing to do.
unfoldable pub plan_rebalance : Observation → List PlannedMove
unfolding has_dead count_plan sort move_leb plan_size_rebalance
plan_rebalance obs =
    if ltb (length obs.peers) 2
    then []
    else if has_dead obs
    then []
    else elim (sort move_leb (count_plan obs)) [
      | [] ↦ plan_size_rebalance obs
      | m ∷ plan ↦ m ∷ plan
    ]
