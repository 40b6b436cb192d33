-- ===== src/Api/Collection.antt =====
-- `QdrantCollection` of api/v1alpha1/qdrantcollection_types.go.
use qdrant_operator.Common.{ℕ, Text, Bool, Option, List, is_empty, if◌then◌else◌}
use qdrant_operator.Api.Conditions.{Condition}

pub data CollectionDeletePolicy : Type 0 where
  retain delete : CollectionDeletePolicy

pub data ReshardPolicy : Type 0 where
  manual auto : ReshardPolicy

pub data ReshardPhase : Type 0 where
  preparing copying swapping finalizing failed blocked : ReshardPhase
  other : Text → ReshardPhase

pub data CollectionPhase : Type 0 where
  ready degraded resharding : CollectionPhase
  other : Text → CollectionPhase

pub record VectorsSpec : Type 0 where
  pub size : ℕ
  pub distance : Text

pub record QdrantCollectionSpec : Type 0 where
  pub cluster_ref : Text
  pub collection_name : Text
  pub vectors : VectorsSpec
  pub shard_number : Option ℕ
  pub replication_factor : ℕ
  pub on_delete : CollectionDeletePolicy
  pub alias : Text
  pub reshard : ReshardPolicy

-- `attempts` is an int32 as a bit pattern below 2 ^ 32.
pub record ReshardStatus : Type 0 where
  pub phase : ReshardPhase
  pub source_collection : Text
  pub shadow_collection : Text
  pub target_shard_number : ℕ
  pub copied_points : ℕ
  pub total_points : ℕ
  pub cursor : Text
  pub started_at : Option ℕ
  pub attempts : ℕ

pub record QdrantCollectionStatus : Type 0 where
  pub phase : CollectionPhase
  pub adopted : Bool
  pub points_count : ℕ
  pub observed_generation : ℕ
  pub active_collection : Text
  pub reshard : Option ReshardStatus
  pub conditions : List Condition

-- `deleted`: the object has a deletion timestamp; `finalizer`: it carries the cleanup finalizer.
pub record QdrantCollection : Type 0 where
  pub name : Text
  pub namespace : Text
  pub generation : ℕ
  pub deleted : Bool
  pub finalizer : Bool
  pub spec : QdrantCollectionSpec
  pub status : QdrantCollectionStatus

-- `TargetCollectionName`: the name in qdrant, by default that of the object.
unfoldable pub target_collection_name : QdrantCollection → Text
target_collection_name c =
    if is_empty c.spec.collection_name then c.name else c.spec.collection_name
