-- ===== src/Api/Restore.antt =====
-- `QdrantRestore` of api/v1alpha1/qdrantrestore_types.go.
use qdrant_operator.Common.{ℕ, Text, Option, List}
use qdrant_operator.Api.Conditions.{Condition}

pub data RestorePhase : Type 0 where
  restoring ready degraded : RestorePhase
  other : Text → RestorePhase

pub record RestoreSource : Type 0 where
  pub peer : ℕ
  pub location : Text

pub record QdrantRestoreSpec : Type 0 where
  pub cluster_ref : Text
  pub collection : Text
  pub from_backup : Text
  pub sources : List RestoreSource
  pub priority : Text

pub record QdrantRestoreStatus : Type 0 where
  pub phase : RestorePhase
  pub observed_generation : ℕ
  pub pending : List RestoreSource
  pub restored : List RestoreSource
  pub completion_time : Option ℕ
  pub conditions : List Condition

pub record QdrantRestore : Type 0 where
  pub name : Text
  pub namespace : Text
  pub generation : ℕ
  pub spec : QdrantRestoreSpec
  pub status : QdrantRestoreStatus
