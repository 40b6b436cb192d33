-- ===== src/Cluster/Observe.antt =====
-- `observe` and `collectSizes`: the reads (never writes) that make an observation. What qdrant and
-- apiserver answer is the parameter `Reads`, none where a read fails.
use qdrant_operator.Common.{
  ℕ, suc, zero, ◌%◌, ◌==◌, ltb, Text, Bool, true, false, not, ◌&&◌, ◌||◌, Option, none, some, List,
  [], ◌∷◌, map, length, count, is_empty, if◌then◌else◌, text_eq, format_uint,
}
use qdrant_operator.Qdrant.{Peer, ClusterInfo, ShardInfo, CollectionClusterInfo, CollectionInfo}
use qdrant_operator.Api.Cluster.{PeerShards, CollectionDistribution, QdrantCluster}
use qdrant_operator.Api.Collection.{QdrantCollection, target_collection_name}
use qdrant_operator.Pass.{with_status}
use qdrant_operator.Rebalance.Observation.{Observation, find_text, find_id}

-- `peer_cluster` is none where the reconciler has no client for single peers.
pub record Reads : Type 0 where
  pub cluster_info : Option ClusterInfo
  pub list_collections : Option (List Text)
  pub collection_cluster : Text → Option CollectionClusterInfo
  pub get_collection : Text → Option CollectionInfo
  pub collections : Option (List QdrantCollection)
  pub peer_cluster : Option (ℕ → Text → Option CollectionClusterInfo)

-- The collections that can be read; the others are passed over.
unfoldable pub read_collections : Reads → List Text → List (Text × CollectionClusterInfo)
read_collections r [] = []
read_collections r (name ∷ names) =
    let rest = read_collections r names in
    elim (r.collection_cluster name) [ none ↦ rest | some cc ↦ (name, cc) ∷ rest ]

-- An int32 count of the shards on a peer.
unfoldable pub shard_counts : List ShardInfo → List Peer → List PeerShards
shard_counts shards peers =
    map
      (λ (p : Peer). record {
        peer = format_uint p.id;
        shards = count (λ s. s.peer_id == p.id) shards % 4294967296;
      })
      peers

unfoldable pub distribution : List Peer → Text × CollectionClusterInfo → CollectionDistribution
distribution peers e = record {
  collection = e.0;
  per_peer = shard_counts e.1.shards peers;
  transfers_in_flight = length e.1.transfers % 4294967296;
}

unfoldable pub read_rf : Reads → List Text → List (Text × ℕ)
read_rf r [] = []
read_rf r (name ∷ names) =
    let rest = read_rf r names in
    elim (r.get_collection name) [
      | none ↦ rest
      | some info ↦ (name, info.replication_factor) ∷ rest
    ]

-- The collection of qdrant that a QdrantCollection stands for now.
unfoldable pub rf_target : QdrantCollection → Text
rf_target col =
    if is_empty col.status.active_collection
    then target_collection_name col
    else col.status.active_collection

-- A larger factor for a key that is there; no key is added.
unfoldable pub raise_rf : Text → ℕ → List (Text × ℕ) → List (Text × ℕ)
raise_rf k n [] = []
raise_rf k n ((j, v) ∷ m) =
    (if text_eq j k then (j, (if ltb v n then n else v)) else (j, v)) ∷ raise_rf k n m

unfoldable pub raise_all : Text → List QdrantCollection → List (Text × ℕ) → List (Text × ℕ)
raise_all cluster [] m = m
raise_all cluster (col ∷ cols) m = raise_all cluster cols (
    if not (text_eq col.spec.cluster_ref cluster) || col.spec.replication_factor == 0
    then m
    else raise_rf (rf_target col) col.spec.replication_factor m)

abbrev SizeMap : Type 0
SizeMap = List (Text × List (ℕ × ℕ))

abbrev slots_of : Option (List (ℕ × ℕ)) → List (ℕ × ℕ)
slots_of none = []
slots_of (some m) = m

-- A write to a map with numbers or names for keys: the newest entry stands in front.
abbrev write_id : ℕ → ℕ → List (ℕ × ℕ) → List (ℕ × ℕ)
write_id k v m = (k, v) ∷ m

abbrev is_absent {ℓ} : {A : Type ℓ} → Option A → Bool
is_absent none = true
is_absent (some a) = false

-- The peer's own shards are the truth; for others a positive number fills an empty slot.
unfoldable pub size_slots : ℕ → List ShardInfo → List (ℕ × ℕ) → List (ℕ × ℕ)
size_slots self [] m = m
size_slots self (s ∷ shards) m = size_slots self shards (
    if s.peer_id == self
    then write_id s.shard_id s.points_count m
    else if ltb 0 s.points_count && is_absent (find_id s.shard_id m)
    then write_id s.shard_id s.points_count m
    else m)

-- One peer's view of every collection; a failed read makes the map incomplete.
unfoldable pub peer_sizes :
    (Text → Option CollectionClusterInfo) → List Text → SizeMap × Bool → SizeMap × Bool
peer_sizes read [] acc = acc
peer_sizes read (name ∷ names) acc = peer_sizes read names (elim (read name) [
  | none ↦ (acc.0, false)
  | some cc ↦
      ((name, size_slots cc.peer_id cc.shards (slots_of (find_text name acc.0))) ∷ acc.0, acc.1)
])

-- The peers from ordinal `ord` on, `n` of them.
unfoldable pub all_sizes :
    (ℕ → Text → Option CollectionClusterInfo) → List Text → ℕ → ℕ → SizeMap × Bool → SizeMap × Bool
all_sizes read names ord zero acc = acc
all_sizes read names ord (suc n) acc =
    all_sizes read names (suc ord) n (peer_sizes (read ord) names acc)

unfoldable pub collect_sizes : Reads → List Text → ℕ → SizeMap × Bool
collect_sizes r names peers = elim r.peer_cluster [
  | none ↦ ([], false)
  | some read ↦ all_sizes read names 0 peers ([], true)
]

abbrev rf_with : Reads → Text → List (Text × ℕ) → List (Text × ℕ)
rf_with r cluster m = elim r.collections [ none ↦ m | some cols ↦ raise_all cluster cols m ]

-- The peers are read and their collections listed.
unfoldable pub observation_of : Reads → Text → ClusterInfo → List Text → Observation
observation_of r cluster ci names =
    let sizes = collect_sizes r names (length ci.peers) in
    record {
      peers = ci.peers;
      collections = read_collections r names;
      rf = rf_with r cluster (read_rf r names);
      sizes = sizes.0;
      sizes_complete = sizes.1;
    }

-- The status gets the peers as soon as they are known, and the distribution with the collections.
unfoldable pub observe : Reads → QdrantCluster → QdrantCluster × Option Observation
observe r qc =
    let s = qc.status in
    elim r.cluster_info [
      | none ↦ (qc, none)
      | some ci ↦
          let s' = record s { peers = map (λ (p : Peer). format_uint p.id) ci.peers } in
          elim r.list_collections [
            | none ↦ (with_status qc s', none)
            | some names ↦ (
              with_status qc (record s' {
                shard_distribution = map (distribution ci.peers) (read_collections r names);
              }),
              some (observation_of r qc.name ci names),
            )
          ]
    ]
