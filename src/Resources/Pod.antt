-- ===== src/Resources/Pod.antt =====
-- statefulset.go: what goes into the pod besides constants: environment, volumes, affinity, resources.
use qdrant_operator.Common.{
  ℕ, ltb, Text, Bool, true, false, Option, none, some, List, [], ◌∷◌, ◌++◌, if◌then◌else◌, codes,
}
use qdrant_operator.Api.Spec.{
  TlsSpec, SecretKeyRef, S3StorageSpec, ResourceRequirements, Affinity, prefer_apart,
}
use qdrant_operator.Api.Cluster.{QdrantCluster}
use qdrant_operator.Resources.{
  init_script_file, prod_config_file, config_mount_dir, config_volume_name, storage_volume_name,
  snapshots_volume_name, init_volume_name, default_api_key_secret_key, default_tls_cert_key,
  default_tls_key_key, default_tls_ca_cert_key, tls_cert_file, tls_key_file, tls_ca_cert_file,
  tls_volume_name, default_s3_access_key_key, default_s3_secret_key_key, storage_mount_dir,
  snapshots_mount_dir, init_mount_dir, tls_mount_dir, own_name, selector_labels,
}
use qdrant_operator.Resources.ConfigFile.{or_default, tls_of, s3_of}

-- A plain value, or the name and the key of a secret.
pub data EnvSource : Type 0 where
  plain : Text → EnvSource
  secret_key : Text → Text → EnvSource

pub record EnvVar : Type 0 where
  pub name : Text
  pub source : EnvSource

-- A secret's items are its keys with the files they become.
pub data VolumeSource : Type 0 where
  config_map : Text → ℕ → VolumeSource
  empty_dir : VolumeSource
  secret : Text → List (Text × Text) → VolumeSource

pub record Volume : Type 0 where
  pub name : Text
  pub source : VolumeSource

pub record VolumeMount : Type 0 where
  pub name : Text
  pub mount_path : Text
  pub sub_path : Text
  pub read_only : Bool

-- The keys of the certificate, of its private key and of the CA.
unfoldable pub tls_secret_keys : TlsSpec → Text × Text × Text
tls_secret_keys tls = (
  or_default tls.cert_key default_tls_cert_key,
  or_default tls.key_key default_tls_key_key,
  or_default tls.ca_cert_key default_tls_ca_cert_key,
)

abbrev pub secret_volume : Option TlsSpec → List Volume
secret_volume none = []
secret_volume (some tls) =
    let keys = tls_secret_keys tls in
    record {
      name = tls_volume_name;
      source =
          secret tls.secret_name
            ((keys.0, tls_cert_file) ∷ (keys.1, tls_key_file) ∷ (keys.2, tls_ca_cert_file) ∷ []);
    }
    ∷ []

unfoldable pub tls_volume : QdrantCluster → List Volume
unfolding tls_of tls_secret_keys
tls_volume qc = secret_volume (tls_of qc)

abbrev pub secret_mount : Option TlsSpec → List VolumeMount
secret_mount none = []
secret_mount (some tls) =
    record { name = tls_volume_name; mount_path = tls_mount_dir; sub_path = []; read_only = true }
    ∷ []

unfoldable pub tls_mount : QdrantCluster → List VolumeMount
unfolding tls_of
tls_mount qc = secret_mount (tls_of qc)

unfoldable pub secret_env : Text → SecretKeyRef → EnvVar
secret_env name ref = record {
  name = name;
  source = secret_key ref.name (or_default ref.key default_api_key_secret_key);
}

abbrev pub env_of : Text → Option SecretKeyRef → List EnvVar
env_of name none = []
env_of name (some ref) = secret_env name ref ∷ []

unfoldable pub api_key_env : QdrantCluster → List EnvVar
unfolding secret_env
api_key_env qc =
    env_of (codes "QDRANT__SERVICE__API_KEY") qc.spec.api_key
    ++ env_of (codes "QDRANT__SERVICE__READ_ONLY_API_KEY") qc.spec.read_only_api_key

abbrev s3_prefix : Text
s3_prefix = codes "QDRANT__STORAGE__SNAPSHOTS_CONFIG__S3_CONFIG__"

-- The end point is no secret, the two keys are.
abbrev pub s3_env : Option S3StorageSpec → List EnvVar
s3_env none = []
s3_env (some s3) =
    let creds = s3.credentials in
    let access : SecretKeyRef = record {
      name = creds.name;
      key = or_default creds.access_key_key default_s3_access_key_key;
    } in
    let secret' : SecretKeyRef = record {
      name = creds.name;
      key = or_default creds.secret_key_key default_s3_secret_key_key;
    } in
    record { name = s3_prefix ++ codes "ENDPOINT_URL"; source = plain s3.endpoint_url }
    ∷ secret_env (s3_prefix ++ codes "ACCESS_KEY") access
    ∷ secret_env (s3_prefix ++ codes "SECRET_KEY") secret'
    ∷ []

unfoldable pub snapshot_s3_env : QdrantCluster → List EnvVar
unfolding s3_of secret_env
snapshot_s3_env qc = s3_env (s3_of qc.spec.snapshots)

abbrev pub init_env : EnvVar
init_env = record {
  name = codes "QDRANT_INIT_FILE_PATH";
  source = plain (init_mount_dir ++ codes "/.qdrant-initialized");
}

-- The environment of the container.
unfoldable pub container_env : QdrantCluster → List EnvVar
unfolding api_key_env snapshot_s3_env
container_env qc = init_env ∷ (api_key_env qc ++ snapshot_s3_env qc)

abbrev pub whole : Text → Text → VolumeMount
whole name path = record { name = name; mount_path = path; sub_path = []; read_only = false }

abbrev pub file_of : Text → VolumeMount
file_of file = record {
  name = config_volume_name;
  mount_path = config_mount_dir ++ (codes "/" ++ file);
  sub_path = file;
  read_only = false;
}

abbrev pub common_mounts : List VolumeMount
common_mounts =
    whole storage_volume_name storage_mount_dir
    ∷ file_of init_script_file
    ∷ file_of prod_config_file
    ∷ whole snapshots_volume_name snapshots_mount_dir
    ∷ whole init_volume_name init_mount_dir
    ∷ []

unfoldable pub volume_mounts : QdrantCluster → List VolumeMount
unfolding tls_mount
volume_mounts qc = common_mounts ++ tls_mount qc

-- The mode is 0o755.
abbrev pub common_volumes : QdrantCluster → List Volume
common_volumes qc =
    record { name = config_volume_name; source = config_map (own_name qc) 493 }
    ∷ record { name = snapshots_volume_name; source = empty_dir }
    ∷ record { name = init_volume_name; source = empty_dir }
    ∷ []

unfoldable pub volumes : QdrantCluster → List Volume
unfolding tls_volume
volumes qc = common_volumes qc ++ tls_volume qc

abbrev pub apart : QdrantCluster → Affinity
apart qc = prefer_apart 100 (selector_labels qc) (codes "kubernetes.io/hostname")

-- What the user gives stands; without it several pods prefer different nodes.
unfoldable pub resolve_affinity : QdrantCluster → Option Affinity
resolve_affinity qc = elim qc.spec.affinity [
  | some a ↦ some a
  | none ↦ if ltb qc.spec.replicas 2 then none else some (apart qc)
]

unfoldable pub default_resources : ResourceRequirements
default_resources = record {
  limits = some ((codes "cpu", codes "2") ∷ (codes "memory", codes "4Gi") ∷ []);
  requests = some ((codes "cpu", codes "250m") ∷ (codes "memory", codes "512Mi") ∷ []);
}

-- Only where neither limits nor requests are given.
unfoldable pub resolve_resources : ResourceRequirements → ResourceRequirements
unfolding default_resources
resolve_resources res = elim res.limits [
  | some l ↦ res
  | none ↦ elim res.requests [ some r ↦ res | none ↦ default_resources ]
]
