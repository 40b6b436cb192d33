-- ===== src/Api/Spec.antt =====
-- The parts of `spec` of a QdrantCluster (api/v1alpha1/qdrantcluster_types.go). Types of kubernetes keep
-- what the code reads or writes of them: a quantity and a toleration are opaque texts, a pointer or
-- a map that may be nil is an option.
use qdrant_operator.Common.{ℕ, Text, Bool, Option, List}

pub record ImageSpec : Type 0 where
  pub repository : Text
  pub tag : Text

-- `RetentionPolicy`: the two constants, or any other text.
pub data RetentionPolicy : Type 0 where
  retain delete : RetentionPolicy
  other : Text → RetentionPolicy

pub record PersistenceSpec : Type 0 where
  pub size : Text
  pub storage_class_name : Text
  pub access_modes : List Text
  pub retention_policy : RetentionPolicy

-- `cert_ttl_seconds` is an int32 as a bit pattern below 2 ^ 32.
pub record TlsSpec : Type 0 where
  pub secret_name : Text
  pub cert_key : Text
  pub key_key : Text
  pub ca_cert_key : Text
  pub cert_ttl_seconds : ℕ

pub record ConfigSpec : Type 0 where
  pub cluster_enabled : Bool
  pub tls_enabled : Bool
  pub tls : Option TlsSpec
  pub raw_override : Option Text

pub record SecretKeyRef : Type 0 where
  pub name : Text
  pub key : Text

pub data SnapshotStorage : Type 0 where
  local s3 : SnapshotStorage
  other : Text → SnapshotStorage

pub record S3CredentialsRef : Type 0 where
  pub name : Text
  pub access_key_key : Text
  pub secret_key_key : Text

pub record S3StorageSpec : Type 0 where
  pub bucket : Text
  pub region : Text
  pub endpoint_url : Text
  pub credentials : S3CredentialsRef

pub record SnapshotsSpec : Type 0 where
  pub storage : SnapshotStorage
  pub s3 : Option S3StorageSpec

-- `corev1.ResourceRequirements`.
pub record ResourceRequirements : Type 0 where
  pub limits : Option (List (Text × Text))
  pub requests : Option (List (Text × Text))

-- `corev1.Affinity`: given by the user, or the one term that the operator writes itself, with its
-- weight, the labels of the pods and the topology key.
pub data Affinity : Type 0 where
  given : Text → Affinity
  prefer_apart : ℕ → List (Text × Text) → Text → Affinity

-- `spec.rebalance` and its `enabled` are pointers: each may be absent.
pub record RebalanceSpec : Type 0 where
  pub enabled : Option Bool

-- `run_as_user` and `fs_group` are int64.
pub record ClusterSpec : Type 0 where
  pub image : ImageSpec
  pub replicas : ℕ
  pub resources : ResourceRequirements
  pub persistence : PersistenceSpec
  pub config : ConfigSpec
  pub service_type : Text
  pub service_annotations : List (Text × Text)
  pub api_key : Option SecretKeyRef
  pub read_only_api_key : Option SecretKeyRef
  pub run_as_user : ℕ
  pub fs_group : ℕ
  pub rebalance : Option RebalanceSpec
  pub snapshots : Option SnapshotsSpec
  pub node_selector : List (Text × Text)
  pub tolerations : List Text
  pub affinity : Option Affinity
