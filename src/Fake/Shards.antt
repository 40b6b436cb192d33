-- ===== src/Fake/Shards.antt =====
-- `CollectionCluster`, `ReplicateShard`, `MoveShard` and `DropReplica`: every shard has a copy that its
-- placement names, and further copies beside it.
use qdrant_operator.Common.{
  ℕ, ◌==◌, leb, Text, Bool, not, Option, none, some, List, [], ◌∷◌, ◌++◌, map, any, filter,
  flat_map, length, sort, if◌then◌else◌, codes, format_uint,
}
use qdrant_operator.Common.Dict
use qdrant_operator.Common.Dict.{Dict, text_key, number_key, pair_key}
use qdrant_operator.Qdrant.{ShardState, active, dead, ShardInfo, CollectionClusterInfo}
use qdrant_operator.Fake.{Fake}
use qdrant_operator.Fake.Answer.{
  Answer, done, failed, panic, collection_missing, not_on_peer, last_replica, unless_injected,
  injected_on,
}
use qdrant_operator.Fake.Seed.{append_peer}

abbrev pub contains : List ℕ → ℕ → Bool
contains peers pid = any (λ p. p == pid) peers

-- `m[name][shard]` of a map of copies.
abbrev pub copies_of : Dict Text (Dict ℕ (List ℕ)) → Text → ℕ → List ℕ
copies_of m name sid = Dict.lookup_or [] sid (Dict.lookup_or [] name m)

-- The closure `state`: dead before any other, active where nothing is planted.
unfoldable pub state_of : Fake → Text → ℕ → ℕ → ShardState
state_of f name sid pid =
    if contains (copies_of f.dead_replicas name sid) pid
    then dead
    else Dict.lookup_or active (sid, pid) (Dict.lookup_or [] name f.shard_states)

unfoldable pub points_on : Fake → Text → ℕ → ℕ
points_on f name sid = Dict.lookup_or 0 sid (Dict.lookup_or [] name f.shard_points)

unfoldable pub copy_on : Fake → Text → ℕ → ℕ → ShardInfo
copy_on f name sid pid = record {
  shard_id = sid;
  peer_id = pid;
  state = state_of f name sid pid;
  points_count = points_on f name sid;
}

-- The copies of one shard, that of the placement first.
unfoldable pub copies : Fake → Text → Dict ℕ ℕ → ℕ → List ShardInfo
copies f name pl sid =
    copy_on f name sid (Dict.lookup_or 0 sid pl)
    ∷ map (copy_on f name sid) (copies_of f.extra_replicas name sid)

abbrev pub shard_ids : Dict ℕ ℕ → List ℕ
shard_ids pl = sort leb (map (λ e. e.0) pl)

abbrev pub cluster_of : Fake → Text → Dict ℕ ℕ → CollectionClusterInfo
cluster_of f name pl = record {
  peer_id = f.self_peer_id;
  shard_count = length pl;
  shards = flat_map (copies f name pl) (shard_ids pl);
  transfers = Dict.lookup_or [] name f.in_flight;
}

abbrev pub cluster_with : Fake → Text → Option (Dict ℕ ℕ) → Answer CollectionClusterInfo
cluster_with f name none = failed (collection_missing name)
cluster_with f name (some pl) = done (cluster_of f name pl)

unfoldable pub collection_cluster : Fake → Text → Answer CollectionClusterInfo
collection_cluster f name =
    unless_injected (injected_on f (codes "CollectionCluster"))
      (cluster_with f name (Dict.lookup name f.placement))

-- "coll/shard:from->to"
abbrev pub moved_text : Text → ℕ → ℕ → ℕ → Text
moved_text name sid from to =
    name
    ++ (codes "/"
        ++ (format_uint sid ++ (codes ":" ++ (format_uint from ++ (codes "->" ++ format_uint to)))))

-- The target gets a copy at once, and the source keeps its own.
unfoldable pub replicate_shard : Fake → Text → ℕ → ℕ → ℕ → Answer Fake
replicate_shard f name sid from to = unless_injected (injected_on f (codes "ReplicateShard")) (
    done (record f {
      extra_replicas = append_peer name sid to f.extra_replicas;
      replicated = f.replicated ++ (moved_text name sid from to ∷ []);
    }))

abbrev pub move_with : Fake → Text → ℕ → ℕ → ℕ → Option (Dict ℕ ℕ) → Answer Fake
move_with f name sid from to none = failed (collection_missing name)
move_with f name sid from to (some pl) =
    if Dict.lookup_or 0 sid pl == from
    then done (record f {
      placement = Dict.put name (Dict.put sid to pl) f.placement;
      moves = f.moves ++ (moved_text name sid from to ∷ []);
    })
    else failed (not_on_peer sid from (Dict.lookup_or 0 sid pl))

-- The copy of the placement moves at once, if it is where the caller takes it to be.
unfoldable pub move_shard : Fake → Text → ℕ → ℕ → ℕ → Answer Fake
move_shard f name sid from to =
    unless_injected (injected_on f (codes "MoveShard"))
      (move_with f name sid from to (Dict.lookup name f.placement))

-- `slices.DeleteFunc` by peer.
abbrev pub without : ℕ → List ℕ → List ℕ
without pid peers = filter (λ p. not (p == pid)) peers

abbrev dropped_text : Text → ℕ → ℕ → Text
dropped_text name sid pid =
    name ++ (codes "/" ++ (format_uint sid ++ (codes ":drop@" ++ format_uint pid)))

-- `m[shard]` without a peer, written back.
abbrev pub strike : ℕ → ℕ → Dict ℕ (List ℕ) → Dict ℕ (List ℕ)
strike sid pid m = Dict.put sid (without pid (Dict.lookup_or [] sid m)) m

-- Writing to `m[name]` panics where that is nil.
abbrev pub drop_from :
    Fake → Text → ℕ → ℕ → Option (Dict ℕ (List ℕ)) → Option (Dict ℕ (List ℕ)) → Answer Fake
drop_from f name sid pid (some deaths) (some extras) = done (record f {
  dead_replicas = Dict.put name (strike sid pid deaths) f.dead_replicas;
  extra_replicas = Dict.put name (strike sid pid extras) f.extra_replicas;
  moves = f.moves ++ (dropped_text name sid pid ∷ []);
})
drop_from f name sid pid _ _ = panic

abbrev pub drop_with :
    Fake
    → Text
    → ℕ
    → ℕ
    → Option (Dict ℕ ℕ)
    → Option (Dict ℕ (List ℕ))
    → Option (Dict ℕ (List ℕ))
    → Answer Fake
drop_with f name sid pid none deaths extras = failed (collection_missing name)
drop_with f name sid pid (some pl) deaths extras =
    if Dict.lookup_or 0 sid pl == pid
    then failed (last_replica sid pid)
    else drop_from f name sid pid deaths extras

-- The copy of the placement is not dropped; another goes from the further copies and from the dead.
unfoldable pub drop_replica : Fake → Text → ℕ → ℕ → Answer Fake
drop_replica f name sid pid = unless_injected (injected_on f (codes "DropReplica")) (
    drop_with f name sid pid (Dict.lookup name f.placement) (Dict.lookup name f.dead_replicas)
      (Dict.lookup name f.extra_replicas))
