-- ===== src/Api/Backup.antt =====
-- `QdrantBackup` of api/v1alpha1/qdrantbackup_types.go.
use qdrant_operator.Common.{ℕ, Text, Bool, Option, List}
use qdrant_operator.Api.Conditions.{Condition}

pub data BackupPhase : Type 0 where
  creating ready idle degraded : BackupPhase
  other : Text → BackupPhase

pub record RetentionSpec : Type 0 where
  pub keep_last : ℕ

pub record QdrantBackupSpec : Type 0 where
  pub cluster_ref : Text
  pub collections : List Text
  pub schedule : Text
  pub retention : Option RetentionSpec
  pub suspend : Bool

pub record SnapshotRef : Type 0 where
  pub collection : Text
  pub peer : ℕ
  pub name : Text
  pub created_at : Text

pub record PendingSnapshot : Type 0 where
  pub collection : Text
  pub peer : ℕ
  pub issued_at : Option ℕ
  pub known : List Text

pub record QdrantBackupStatus : Type 0 where
  pub phase : BackupPhase
  pub observed_generation : ℕ
  pub active : Option PendingSnapshot
  pub pending : List PendingSnapshot
  pub snapshots : List SnapshotRef
  pub last_success_time : Option ℕ
  pub next_schedule_time : Option ℕ
  pub conditions : List Condition

pub record QdrantBackup : Type 0 where
  pub name : Text
  pub namespace : Text
  pub generation : ℕ
  pub spec : QdrantBackupSpec
  pub status : QdrantBackupStatus
