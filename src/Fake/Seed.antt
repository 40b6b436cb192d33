-- ===== src/Fake/Seed.antt =====
-- The setters of the fake: how a test plants peers, placements, states and points.
use qdrant_operator.Common.{
  ℕ, zero, suc, ◌+◌, Text, false, List, [], ◌∷◌, ◌++◌, if◌then◌else◌, codes, format_uint,
}
use qdrant_operator.Common.Dict
use qdrant_operator.Common.Dict.{Dict, text_key, number_key, pair_key}
use qdrant_operator.Qdrant.{Peer, ShardState, CollectionInfo, is_active}
use qdrant_operator.Fake.{Fake}

-- `CollectionInfo{}`
abbrev pub no_collection : CollectionInfo
no_collection = record {
  found = false;
  points_count = 0;
  vector_size = 0;
  distance = [];
  shard_number = 0;
  replication_factor = 0;
}

-- `f.Collections[name]`
abbrev pub info_of : Fake → Text → CollectionInfo
info_of f name = Dict.lookup_or no_collection name f.collections

unfoldable pub set_shard_points : Fake → Text → Dict ℕ ℕ → Fake
set_shard_points f name sizes = record f { shard_points = Dict.put name sizes f.shard_points }

-- `m[name][shard] = append(m[name][shard], peer)`, the inner map made where it is missing.
abbrev pub append_peer : Text → ℕ → ℕ → Dict Text (Dict ℕ (List ℕ)) → Dict Text (Dict ℕ (List ℕ))
append_peer name shard peer m =
    let inner = Dict.lookup_or [] name m in
    Dict.put name (Dict.put shard (Dict.lookup_or [] shard inner ++ (peer ∷ [])) inner) m

unfoldable pub add_replica : Fake → Text → ℕ → ℕ → Fake
add_replica f name shard peer = record f {
  extra_replicas = append_peer name shard peer f.extra_replicas;
}

unfoldable pub mark_dead : Fake → Text → ℕ → ℕ → Fake
mark_dead f name shard peer = record f {
  dead_replicas = append_peer name shard peer f.dead_replicas;
}

-- Only what differs from active is kept.
unfoldable pub set_shard_state : Fake → Text → ℕ → ℕ → ShardState → Fake
set_shard_state f name shard peer state =
    let inner = Dict.lookup_or [] name f.shard_states in
    let inner' =
      if is_active state
      then Dict.remove (shard, peer) inner
      else Dict.put (shard, peer) state inner in
    record f { shard_states = Dict.put name inner' f.shard_states }

-- `{"id":%d,"vector":[0.1]}` for the numbers from i on.
unfoldable pub dummy_points : ℕ → ℕ → List Text
dummy_points zero i = []
dummy_points (suc n) i =
    (codes "{\"id\":" ++ (format_uint i ++ codes ",\"vector\":[0.1]}")) ∷ dummy_points n (i + 1)

-- The points of a collection and their number in its info are written together.
abbrev pub write_points : Fake → Text → List Text → ℕ → Fake
write_points f name points count = record f {
  points = Dict.put name points f.points;
  collections = Dict.put name (record (info_of f name) { points_count = count }) f.collections;
}

unfoldable pub set_points : Fake → Text → ℕ → Fake
set_points f name n = write_points f name (dummy_points n 0) n

-- The first of the peers answers for itself; with none it stays who it was.
abbrev first_id : List Peer → ℕ → ℕ
first_id [] self = self
first_id (p ∷ peers) self = p.id

unfoldable pub set_peers : Fake → List Peer → Fake
set_peers f peers = record f { peers_list = peers; self_peer_id = first_id peers f.self_peer_id }

unfoldable pub set_collection : Fake → Text → CollectionInfo → Fake
set_collection f name info = record f { collections = Dict.put name info f.collections }

unfoldable pub set_placement : Fake → Text → Dict ℕ ℕ → Fake
set_placement f name pl = record f { placement = Dict.put name pl f.placement }

unfoldable pub get_placement : Fake → Text → Dict ℕ ℕ
get_placement f name = Dict.lookup_or [] name f.placement
