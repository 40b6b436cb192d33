-- ===== src/Api/Cluster.antt =====
-- `QdrantCluster` of api/v1alpha1/qdrantcluster_types.go.
use qdrant_operator.Common.{ℕ, Text, Bool, Option, List}
use qdrant_operator.Api.Conditions.{Condition}
use qdrant_operator.Api.Spec.{ClusterSpec}

pub data Phase : Type 0 where
  rebalancing running upgrading draining provisioning : Phase
  other : Text → Phase

-- `MoveStatus.Kind`.
pub data Kind : Type 0 where
  replicate dead_repair rebalance drain : Kind
  other : Text → Kind

pub record MoveStatus : Type 0 where
  pub kind : Kind
  pub collection : Text
  pub shard_id : ℕ
  pub from_peer : Text
  pub to_peer : Text
  pub drop : Bool
  pub issued_at : Option ℕ

pub record DrainStatus : Type 0 where
  pub target_replicas : ℕ
  pub current_replicas : ℕ
  pub peers : List Text
  pub pending_moves : List Text
  pub started_at : ℕ

pub record PeerShards : Type 0 where
  pub peer : Text
  pub shards : ℕ

pub record CollectionDistribution : Type 0 where
  pub collection : Text
  pub per_peer : List PeerShards
  pub transfers_in_flight : ℕ

-- `move_backoff` is an int32 as a bit pattern below 2 ^ 32.
pub record ClusterStatus : Type 0 where
  pub phase : Phase
  pub replicas : ℕ
  pub ready_replicas : ℕ
  pub peers : List Text
  pub observed_generation : ℕ
  pub shard_distribution : List CollectionDistribution
  pub planned_moves : List Text
  pub active_move : Option MoveStatus
  pub move_backoff : ℕ
  pub drain_status : Option DrainStatus
  pub selector : Text
  pub conditions : List Condition

pub record QdrantCluster : Type 0 where
  pub name : Text
  pub namespace : Text
  pub generation : ℕ
  pub spec : ClusterSpec
  pub status : ClusterStatus
