-- ===== src/Resources/Wiring.antt =====
-- The parts of a rendered pod fit together.
use qdrant_operator.Common.{
  Text, Bool, true, not, ◌&&◌, ◌≡◌, refl, Option, none, some, List, [], ◌∷◌, ◌++◌, All, any, map,
  is_empty, codes, text_eq, Option-cases, inl, inr,
}
use qdrant_operator.Api.Spec.{
  SnapshotStorage, SecretKeyRef, S3CredentialsRef, S3StorageSpec, SnapshotsSpec, TlsSpec,
}
use qdrant_operator.Api.Cluster.{QdrantCluster}
use qdrant_operator.Resources.{storage_volume_name, labels}
use qdrant_operator.Resources.ConfigFile.{
  s3_block, tls_of, s3_of, tls_yaml, snapshots_yaml, production_yaml, init_script, build_config_map,
}
use qdrant_operator.Resources.Pod.{
  EnvVar, Volume, VolumeMount, secret_volume, secret_mount, common_volumes, common_mounts,
  tls_volume, tls_mount, volume_mounts, volumes, env_of, init_env, s3_env, secret_env, api_key_env,
  snapshot_s3_env, container_env,
}
use qdrant_operator.Resources.StatefulSet.{
  VolumeClaim, StatefulSet, build_stateful_set, pod_spec, container_of,
}

-- The names that a mount of the pod may have: volumes and claims.
abbrev pub volume_names : StatefulSet → List Text
volume_names sts =
    map (λ (v : Volume). v.name) sts.pod.volumes
    ++ map (λ (c : VolumeClaim). c.name) sts.volume_claims

-- Every mount of the container names a volume of the pod or a claim of the set, with TLS and without.
pub mounted_volumes :
    (sha256 : Text → Text) (qc : QdrantCluster)
    → let sts : StatefulSet = build_stateful_set sha256 qc in
      All
        (λ (m : VolumeMount). any (λ n. text_eq n m.name) (volume_names sts) ≡ true)
        sts.pod.container.volume_mounts
unfolding build_stateful_set pod_spec container_of volume_mounts volumes tls_mount tls_volume
    text_eq
mounted_volumes sha256 qc = go (tls_of qc)
  where
    go :
        (o : Option TlsSpec)
        → All
            (λ (m : VolumeMount).
              any
                (λ n. text_eq n m.name)
                (map (λ (v : Volume). v.name) (common_volumes qc ++ secret_volume o)
                  ++ (storage_volume_name ∷ []))
              ≡ true)
            (common_mounts ++ secret_mount o)
    go none = (refl, (refl, (refl, (refl, (refl, tt)))))
    go (some t) = (refl, (refl, (refl, (refl, (refl, (refl, tt))))))

-- The configuration names certificates exactly where the pod mounts them: the TLS section is empty
-- where there is no secret volume, and where nothing is mounted from it.
pub tls_section-empty :
    (qc : QdrantCluster)
    → (is_empty (tls_yaml qc) ≡ is_empty (tls_volume qc))
      × (is_empty (tls_yaml qc) ≡ is_empty (tls_mount qc))
unfolding tls_yaml tls_volume tls_mount
tls_section-empty qc = elim (Option-cases (tls_of qc)) [
  | inl e ↦ rw e (refl, refl)
  | inr e ↦ rw e.1 (refl, refl)
]

-- No name stands twice.
abbrev pub distinct_names : List EnvVar → Bool
distinct_names [] = true
distinct_names (v ∷ vs) = not (any (λ (w : EnvVar). text_eq w.name v.name) vs) && distinct_names vs

-- No variable of the container's environment is set twice, whichever keys and S3 storage are given.
pub distinct_names-container_env : (qc : QdrantCluster) → distinct_names (container_env qc) ≡ true
unfolding container_env api_key_env snapshot_s3_env secret_env text_eq
distinct_names-container_env qc =
    go qc.spec.api_key qc.spec.read_only_api_key (s3_of qc.spec.snapshots)
  where
    go :
        (a r : Option SecretKeyRef) (s : Option S3StorageSpec)
        → distinct_names (
            init_env
            ∷ ((env_of (codes "QDRANT__SERVICE__API_KEY") a
                  ++ env_of (codes "QDRANT__SERVICE__READ_ONLY_API_KEY") r)
                ++ s3_env s))
          ≡ true
    go none none none = refl
    go none none (some s) = refl
    go none (some r) none = refl
    go none (some r) (some s) = refl
    go (some a) none none = refl
    go (some a) none (some s) = refl
    go (some a) (some r) none = refl
    go (some a) (some r) (some s) = refl

-- A cluster with other references to secrets.
abbrev with_credentials : S3CredentialsRef → SnapshotsSpec → SnapshotsSpec
with_credentials c sn = record sn {
  s3 = elim sn.s3 [ none ↦ none | some s3 ↦ some (record s3 { credentials = c }) ];
}

abbrev with_snapshots : S3CredentialsRef → Option SnapshotsSpec → Option SnapshotsSpec
with_snapshots c none = none
with_snapshots c (some sn) = some (with_credentials c sn)

abbrev pub with_secrets :
    Option SecretKeyRef → Option SecretKeyRef → S3CredentialsRef → QdrantCluster → QdrantCluster
with_secrets key read_only c qc =
    let spec = qc.spec in
    record qc {
      spec = record spec {
        api_key = key;
        read_only_api_key = read_only;
        snapshots = with_snapshots c spec.snapshots;
      };
    }

s3_block-with_credentials :
    (c : S3CredentialsRef) (o : Option SnapshotsSpec)
    → s3_block (s3_of (with_snapshots c o)) ≡ s3_block (s3_of o)
unfolding s3_of
s3_block-with_credentials c none = refl
s3_block-with_credentials c (some sn) = go sn.storage sn.s3
  where
    go :
        (storage : SnapshotStorage) (s3 : Option S3StorageSpec)
        → s3_block (s3_of (some (with_credentials c (record { storage = storage; s3 = s3 }))))
          ≡ s3_block (s3_of (some (record { storage = storage; s3 = s3 })))
    go SnapshotStorage.s3 none = refl
    go SnapshotStorage.s3 (some s3) = refl
    go SnapshotStorage.local s3 = refl
    go (SnapshotStorage.other t) s3 = refl

-- The ConfigMap says nothing of the secrets: it is the same whatever keys and S3 credentials the
-- cluster refers to.
pub config_map-with_secrets :
    (key read_only : Option SecretKeyRef) (c : S3CredentialsRef) (qc : QdrantCluster)
    → build_config_map (with_secrets key read_only c qc) ≡ build_config_map qc
unfolding build_config_map production_yaml init_script tls_yaml tls_of snapshots_yaml labels
config_map-with_secrets key read_only c qc = rw (s3_block-with_credentials c qc.spec.snapshots) refl
