-- ===== src/Client/Observing.antt =====
-- What the controllers observe through the client: `ListCollections`, `ClusterInfo` and
-- `CollectionCluster` of cluster.go.
use qdrant_operator.Common.{
  ℕ, leb, Text, Bool, Option, none, some, List, [], ◌∷◌, ◌++◌, map, sort, text_leb, text_eq, codes,
  is_empty, parse_digits, if◌then◌else◌,
}
use qdrant_operator.Common.Dict.{Dict}
use qdrant_operator.Qdrant.{
  Peer, ClusterInfo, ShardInfo, TransferInfo, CollectionClusterInfo, ShardState, active, dead,
  other,
}
use qdrant_operator.Client.{
  HttpClient, bad_peer_key, Reply, reply, failure, http_get, do_json, NodeWire, LocalShard,
  RemoteShard, ShardTransfer, PlacementWire,
}

abbrev names_of : Reply (List Text) → Reply (List Text)
names_of (failure e) = failure e
names_of (reply names) = reply (sort text_leb names)

unfoldable pub list_collections : HttpClient → Reply (List Text)
unfolding do_json sort
list_collections c = names_of (do_json c http_get (codes "/collections") none c.codec.names)

-- `strconv.ParseUint(s, 10, 64)`
unfoldable pub parse_uint64 : Text → Option ℕ
unfolding parse_digits
parse_uint64 s = if is_empty s then none else parse_digits 18446744073709551616 0 s

-- A key that is no number is an error.
abbrev pub peer_ahead : Text → Text → Option ℕ → Reply (List Peer) → Reply (List Peer)
peer_ahead key uri none rest = failure (bad_peer_key key)
peer_ahead key uri (some id) (failure e) = failure e
peer_ahead key uri (some id) (reply peers) = reply ((record { id = id; uri = uri }) ∷ peers)

-- The peers in the order of the map; the first bad key ends the loop.
unfoldable pub peers_of : Dict Text Text → Reply (List Peer)
unfolding parse_uint64
peers_of [] = reply []
peers_of ((key, uri) ∷ m) = peer_ahead key uri (parse_uint64 key) (peers_of m)

-- Keys that spell one number twice, as `7` and `07`, would come in any order.
abbrev pub by_id : Peer → Peer → Bool
by_id p q = leb p.id q.id

abbrev pub info_with : NodeWire → Reply (List Peer) → Reply ClusterInfo
info_with r (failure e) = failure e
info_with r (reply peers) = reply (record {
  enabled = text_eq r.status (codes "enabled");
  peer_id = r.peer_id;
  peers = sort by_id peers;
  raft_leader = r.leader;
  pending_operations = r.pending_operations;
})

abbrev pub info_of : Reply NodeWire → Reply ClusterInfo
info_of (failure e) = failure e
info_of (reply r) = info_with r (peers_of r.peers)

unfoldable pub cluster_info : HttpClient → Reply ClusterInfo
unfolding do_json peers_of sort
cluster_info c = info_of (do_json c http_get (codes "/cluster") none c.codec.node)

-- The two states that are told apart.
unfoldable pub state_of_text : Text → ShardState
state_of_text s =
    if text_eq s (codes "Active")
    then active
    else if text_eq s (codes "Dead")
    then dead
    else other s

-- A local shard is the answering peer's; a remote one comes without its points.
abbrev pub local_info : ℕ → LocalShard → ShardInfo
local_info self s = record {
  shard_id = s.shard_id;
  peer_id = self;
  state = state_of_text s.state;
  points_count = s.points_count;
}

abbrev pub remote_info : RemoteShard → ShardInfo
remote_info s = record {
  shard_id = s.shard_id;
  peer_id = s.peer_id;
  state = state_of_text s.state;
  points_count = 0;
}

abbrev transfer_info : ShardTransfer → TransferInfo
transfer_info t = record {
  shard_id = t.shard_id;
  source = t.from;
  target = t.to;
  method = t.method;
}

abbrev pub placed : PlacementWire → CollectionClusterInfo
placed r = record {
  peer_id = r.peer_id;
  shard_count = r.shard_count;
  shards = map (local_info r.peer_id) r.local_shards ++ map remote_info r.remote_shards;
  transfers = map transfer_info r.shard_transfers;
}

abbrev pub placement_of : Reply PlacementWire → Reply CollectionClusterInfo
placement_of (failure e) = failure e
placement_of (reply r) = reply (placed r)

unfoldable pub collection_cluster : HttpClient → Text → Reply CollectionClusterInfo
unfolding do_json state_of_text
collection_cluster c name = placement_of (
    do_json c http_get (codes "/collections/" ++ (name ++ codes "/cluster")) none c.codec.placement)
