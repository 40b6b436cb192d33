-- ===== src/Qdrant.antt =====
-- The types of internal/qdrant (client.go, cluster.go, snapshot.go) and of the decoded answers that
-- its HTTP client turns into them. A peer id is a uint64 and a shard id a uint32, both plain numbers.
use qdrant_operator.Common.{ℕ, Text, Bool, true, false, List}

-- `ShardInfo.State`: the two constants that the operator tells apart, or any other text.
pub data ShardState : Type 0 where
  active dead : ShardState
  other : Text → ShardState

pub record Peer : Type 0 where
  pub id : ℕ
  pub uri : Text

pub record ClusterInfo : Type 0 where
  pub enabled : Bool
  pub peer_id : ℕ
  pub peers : List Peer
  pub raft_leader : ℕ
  pub pending_operations : ℕ

pub record ShardInfo : Type 0 where
  pub shard_id : ℕ
  pub peer_id : ℕ
  pub state : ShardState
  pub points_count : ℕ

pub record TransferInfo : Type 0 where
  pub shard_id : ℕ
  pub source : ℕ
  pub target : ℕ
  pub method : Text

pub record CollectionClusterInfo : Type 0 where
  pub peer_id : ℕ
  pub shard_count : ℕ
  pub shards : List ShardInfo
  pub transfers : List TransferInfo

pub record CollectionSpec : Type 0 where
  pub vector_size : ℕ
  pub distance : Text
  pub shard_number : ℕ
  pub replication_factor : ℕ

pub record CollectionInfo : Type 0 where
  pub found : Bool
  pub points_count : ℕ
  pub vector_size : ℕ
  pub distance : Text
  pub shard_number : ℕ
  pub replication_factor : ℕ

pub record SnapshotInfo : Type 0 where
  pub name : Text
  pub creation_time : Text
  pub size : ℕ

-- One item of the `actions` of an alias update: exactly one of the two is set.
pub data AliasAction : Type 0 where
  create_alias : Text → Text → AliasAction
  delete_alias : Text → AliasAction

unfoldable pub is_active : ShardState → Bool
is_active active = true
is_active _ = false

unfoldable pub is_dead : ShardState → Bool
is_dead dead = true
is_dead _ = false
