-- ===== src/Drain/Tests.antt =====
-- The theorems on draining, at a concrete cluster.
use qdrant_operator.Common.{
  arith, ◌==◌, if◌then◌else◌, Option, false, Text, none, some, List, [], ◌∷◌, true, ◌≡◌, refl, Memᴰ,
  All, ◌⊎◌, inl, text_eq, sort, drop, inr,
}
use qdrant_operator.Qdrant.{active, ShardInfo, CollectionClusterInfo}
use qdrant_operator.Rebalance.Observation.{find_text, transfers_in_flight, holds, is_member, keys}
use qdrant_operator.Rebalance.Moves.{PlannedMove}
use qdrant_operator.Rebalance.Operations.{operations}
use qdrant_operator.Drain.Plan.{
  any_transfer, plan_peer_drain, place_all, place_shards, place_shard, best_keeper, load_all,
  load_shards, keep_move,
}
use qdrant_operator.Api.Cluster.{Kind}
use qdrant_operator.Rebalance.Executor.{active_move_completed, move_record}
use qdrant_operator.Drain.Pending.{IsEffective, active_move_completed-planned}
use qdrant_operator.Drain.Cycle.{Inputs, reconcile_drain_cycle}
use qdrant_operator.Drain.Safety.{IsDrainMove, plan_peer_drain_safe}
use qdrant_operator.Drain.Completeness.{plan_peer_drain_complete}
use qdrant_operator.Drain.Allowed.{IsGuarded}
use qdrant_operator.Drain.Restraint.{drain-IsGuarded, drain_stands_still}
use qdrant_operator.Drain.Ordinals.{peer_ordinal}
use qdrant_operator.Drain.Announced.{announced_host, announced_uri, peer_ordinal-announced_uri}
use qdrant_operator.Fixtures.{
  condition_list, docs, first_peer, second_peer, shard_at, placed, seen, cluster_with, start_pass,
  all_accepted,
}

-- The second peer goes, and holds shard 0.
abbrev shards : List ShardInfo
shards = shard_at 0 12 active ∷ shard_at 1 11 active ∷ []

-- Shard 0 has left it.
abbrev drained : List ShardInfo
drained = shard_at 0 11 active ∷ shard_at 1 11 active ∷ []

abbrev listed : List (Text × CollectionClusterInfo)
listed = (docs, placed shards) ∷ []

-- Two pods, of which one is wanted. The host of a URI is what follows its `http://`.
abbrev shrinking : Inputs
shrinking = record {
  now = 7;
  answers = all_accepted;
  hostname = λ uri. some (drop 7 uri);
  live = record { spec_replicas = 2; replicas = 2; ready_replicas = 2 };
  collections = none;
}

plan_peer_drain_safe_example :
    All
      (IsDrainMove 12 (first_peer ∷ []) listed)
      (plan_peer_drain second_peer (first_peer ∷ []) listed).moves
    × ((any_transfer listed ≡ false)
        ⊎ ((plan_peer_drain second_peer (first_peer ∷ []) listed).moves ≡ []))
plan_peer_drain_safe_example = plan_peer_drain_safe second_peer (first_peer ∷ []) listed

plan_peer_drain_complete_example :
    (m : PlannedMove) × Memᴰ m (plan_peer_drain second_peer (first_peer ∷ []) listed).moves
    × (m.collection ≡ docs)
    × (m.shard_id ≡ 0)
unfolding find_text text_eq plan_peer_drain place_all place_shards place_shard best_keeper load_all
    load_shards holds is_member sort keys
plan_peer_drain_complete_example =
    plan_peer_drain_complete second_peer (first_peer ∷ []) listed docs (placed shards)
      (shard_at 0 12 active) refl refl refl (Memᴰ.head refl) refl

drain-IsGuarded_example :
    (operations
        (reconcile_drain_cycle condition_list shrinking
          (start_pass (cluster_with 1 none))
          (some (seen shards 1))).pass.calls
      ≡ operations [])
    ⊎ (transfers_in_flight (seen shards 1) ≡ 0)
      × IsGuarded shrinking
          (seen shards 1)
          1
          []
          (reconcile_drain_cycle condition_list shrinking
            (start_pass (cluster_with 1 none))
            (some (seen shards 1))).pass.calls
drain-IsGuarded_example =
    drain-IsGuarded condition_list shrinking (start_pass (cluster_with 1 none)) (seen shards 1)

drain_stands_still_example :
    operations
      (reconcile_drain_cycle condition_list shrinking
        (start_pass (cluster_with 1 none))
        none).pass.calls
    ≡ operations []
drain_stands_still_example =
    drain_stands_still condition_list shrinking (start_pass (cluster_with 1 none)) none (inl refl)

-- The host of a URI of the cluster's own shape: behind `http://`, up to the colon.
before_colon : Text → Text
before_colon [] = []
before_colon (c ∷ s) = if c == b':' then [] else c ∷ before_colon s

host_of : Text → Option Text
host_of uri = some (before_colon (drop 7 uri))

host_read :
    host_of (announced_uri (cluster_with 2 none) 1) ≡ some (announced_host (cluster_with 2 none) 1)
unfolding host_of before_colon announced_uri announced_host qdrant_operator.Common.format_uint
    qdrant_operator.Common.format_digits
host_read = refl

peer_ordinal-announced_uri_example :
    peer_ordinal host_of (announced_uri (cluster_with 2 none) 1) ≡ some 1
peer_ordinal-announced_uri_example =
    peer_ordinal-announced_uri host_of (cluster_with 2 none) 1 host_read refl (omega arith)

active_move_completed-planned_example :
    let mv = keep_move docs 0 second_peer.id first_peer.id in
    (active_move_completed (seen shards 1) (move_record 7 mv Kind.drain) ≡ false)
    × ((active_move_completed (seen drained 1) (move_record 7 mv Kind.drain) ≡ false)
        ⊎ IsEffective (seen drained 1) mv)
unfolding find_text text_eq plan_peer_drain place_all place_shards place_shard best_keeper load_all
    load_shards holds is_member sort keys
active_move_completed-planned_example =
    active_move_completed-planned (seen shards 1) (seen drained 1) 7
      (keep_move docs 0 second_peer.id first_peer.id) Kind.drain
      (inr (second_peer, first_peer ∷ [], Memᴰ.head refl, refl)) (omega arith) (omega arith)
