-- ===== src/Resources/Tests.antt =====
-- The theorems on rendered objects, at a cluster with TLS, keys and snapshots in S3.
use qdrant_operator.Common.{true, ◌≡◌, none, some, [], All, any, is_empty, text_eq, codes}
use qdrant_operator.Api.Spec.{ClusterSpec, SnapshotStorage, SecretKeyRef, S3CredentialsRef}
use qdrant_operator.Api.Cluster.{QdrantCluster}
use qdrant_operator.Resources.ConfigFile.{tls_yaml, build_config_map}
use qdrant_operator.Resources.Pod.{VolumeMount, tls_volume, tls_mount, container_env}
use qdrant_operator.Resources.StatefulSet.{StatefulSet, build_stateful_set}
use qdrant_operator.Resources.Wiring.{
  volume_names, mounted_volumes, tls_section-empty, distinct_names, distinct_names-container_env,
  with_secrets, config_map-with_secrets,
}
use qdrant_operator.Fixtures.{sample_spec, cluster_with}

abbrev key : SecretKeyRef
key = record { name = codes "keys"; key = [] }

abbrev bucket_keys : S3CredentialsRef
bucket_keys = record { name = codes "bucket"; access_key_key = []; secret_key_key = [] }

abbrev full_spec : ClusterSpec
full_spec = record (sample_spec 2) {
  config = record {
    cluster_enabled = true;
    tls_enabled = true;
    tls = some (record {
      secret_name = codes "cert";
      cert_key = [];
      key_key = [];
      ca_cert_key = [];
      cert_ttl_seconds = 0;
    });
    raw_override = none;
  };
  api_key = some key;
  read_only_api_key = some key;
  snapshots = some (record {
    storage = SnapshotStorage.s3;
    s3 = some (record {
      bucket = codes "snapshots";
      region = [];
      endpoint_url = codes "http://rgw";
      credentials = bucket_keys;
    });
  });
}

abbrev full : QdrantCluster
full = record (cluster_with 2 none) { spec = full_spec }

mounted_volumes_example :
    let sts : StatefulSet = build_stateful_set (λ t. t) full in
    All
      (λ (m : VolumeMount). any (λ n. text_eq n m.name) (volume_names sts) ≡ true)
      sts.pod.container.volume_mounts
mounted_volumes_example = mounted_volumes (λ t. t) full

tls_section-empty_example :
    (is_empty (tls_yaml full) ≡ is_empty (tls_volume full))
    × (is_empty (tls_yaml full) ≡ is_empty (tls_mount full))
tls_section-empty_example = tls_section-empty full

distinct_names-container_env_example : distinct_names (container_env full) ≡ true
distinct_names-container_env_example = distinct_names-container_env full

config_map-with_secrets_example :
    build_config_map (with_secrets none (some key) bucket_keys full) ≡ build_config_map full
config_map-with_secrets_example = config_map-with_secrets none (some key) bucket_keys full
