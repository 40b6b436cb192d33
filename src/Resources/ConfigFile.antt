-- ===== src/Resources/ConfigFile.antt =====
-- configmap.go: the start script and production.yaml, and the ConfigMap that holds both. SHA-256 in
-- hexadecimal is the parameter `sha256`.
use qdrant_operator.Common.{
  ℕ, ◌==◌, leb, Text, Bool, ◌||◌, Option, none, some, [], ◌∷◌, ◌++◌, is_empty, if◌then◌else◌, codes,
  format_uint,
}
use qdrant_operator.Common.Dict.{Dict}
use qdrant_operator.Api.Spec.{SnapshotStorage, S3StorageSpec, SnapshotsSpec, TlsSpec}
use qdrant_operator.Api.Cluster.{QdrantCluster}
use qdrant_operator.Resources.{
  p2p_port, init_script_file, prod_config_file, default_cert_ttl_seconds, default_s3_region,
  tls_mount_dir, tls_cert_file, tls_key_file, tls_ca_cert_file, own_name, headless_name, labels,
  join,
}

abbrev pub or_default : Text → Text → Text
or_default s d = if is_empty s then d else s

-- Where peer 0 listens to its peers.
abbrev seed : QdrantCluster → Text
seed qc = join (
    codes "http://"
    ∷ own_name qc
    ∷ codes "-0."
    ∷ headless_name qc
    ∷ codes ":"
    ∷ format_uint p2p_port
    ∷ [])

-- Peer 0 starts alone; another joins through it. Both announce their own address.
unfoldable pub init_script : QdrantCluster → Text
init_script qc = join (
    codes "#!/bin/sh\necho \"Soft limits\"\nulimit -a -S\necho \"Hard limits\"\nulimit -a -H\n"
    ∷ codes "ulimit -n $(ulimit -Hn)\nSET_INDEX=${HOSTNAME##*-}\n"
    ∷ codes "echo \"Starting initializing for pod $SET_INDEX\"\n"
    ∷ codes "if [ \"$SET_INDEX\" = \"0\" ]; then\n  exec ./entrypoint.sh --uri '"
    ∷ seed qc
    ∷ codes "'\nelse\n  exec ./entrypoint.sh --bootstrap '"
    ∷ seed qc
    ∷ codes "' --uri 'http://"
    ∷ own_name qc
    ∷ codes "-'\"$SET_INDEX\"'."
    ∷ headless_name qc
    ∷ codes ":"
    ∷ format_uint p2p_port
    ∷ codes "'\nfi\n"
    ∷ [])

-- The coordinates of a bucket, where snapshots go there.
unfoldable pub s3_of : Option SnapshotsSpec → Option S3StorageSpec
s3_of none = none
s3_of (some sn) = elim sn.storage [ SnapshotStorage.s3 ↦ sn.s3 | _ ↦ none ]

-- The certificates, where TLS is on.
unfoldable pub tls_of : QdrantCluster → Option TlsSpec
tls_of qc = if qc.spec.config.tls_enabled then qc.spec.config.tls else none

abbrev pub s3_block : Option S3StorageSpec → Text
s3_block none = []
s3_block (some s3) = join (
    codes "storage:\n  snapshots_config:\n    snapshots_storage: s3\n    s3_config:\n      bucket: "
    ∷ s3.bucket
    ∷ codes "\n      region: "
    ∷ or_default s3.region default_s3_region
    ∷ codes "\n"
    ∷ [])

unfoldable pub snapshots_yaml : QdrantCluster → Text
unfolding s3_of
snapshots_yaml qc = s3_block (s3_of qc.spec.snapshots)

-- An int32 that is zero or negative means the default.
abbrev ttl_of : ℕ → ℕ
ttl_of ttl = if ttl == 0 || leb 2147483648 ttl then default_cert_ttl_seconds else ttl

abbrev tls_block : Option TlsSpec → Text
tls_block none = []
tls_block (some tls) = join (
    codes "tls:\n  cert: "
    ∷ tls_mount_dir
    ∷ codes "/"
    ∷ tls_cert_file
    ∷ codes "\n  key: "
    ∷ tls_mount_dir
    ∷ codes "/"
    ∷ tls_key_file
    ∷ codes "\n  ca_cert: "
    ∷ tls_mount_dir
    ∷ codes "/"
    ∷ tls_ca_cert_file
    ∷ codes "\n  cert_ttl: "
    ∷ format_uint (ttl_of tls.cert_ttl_seconds)
    ∷ codes "\n"
    ∷ [])

unfoldable pub tls_yaml : QdrantCluster → Text
unfolding tls_of
tls_yaml qc = tls_block (tls_of qc)

abbrev flag : Bool → Text
flag b = if b then codes "true" else codes "false"

unfoldable pub production_yaml : QdrantCluster → Text
unfolding tls_yaml snapshots_yaml
production_yaml qc = join (
    tls_yaml qc
    ∷ snapshots_yaml qc
    ∷ codes "cluster:\n  consensus:\n    tick_period_ms: 100\n  enabled: "
    ∷ flag qc.spec.config.cluster_enabled
    ∷ codes "\n  p2p:\n    enable_tls: "
    ∷ flag qc.spec.config.tls_enabled
    ∷ codes "\n    port: "
    ∷ format_uint p2p_port
    ∷ codes "\nservice:\n  enable_tls: "
    ∷ flag qc.spec.config.tls_enabled
    ∷ codes "\n"
    ∷ [])

unfoldable pub config_checksum : (Text → Text) → QdrantCluster → Text
unfolding init_script production_yaml
config_checksum sha256 qc = sha256 (init_script qc ++ production_yaml qc)

pub record ConfigMap : Type 0 where
  pub name : Text
  pub namespace : Text
  pub labels : Dict Text Text
  pub data_files : Dict Text Text

unfoldable pub build_config_map : QdrantCluster → ConfigMap
unfolding init_script production_yaml
build_config_map qc = record {
  name = own_name qc;
  namespace = qc.namespace;
  labels = labels qc;
  data_files = (init_script_file, init_script qc) ∷ (prod_config_file, production_yaml qc) ∷ [];
}
