-- ===== src/Resources/StatefulSet.antt =====
-- `BuildStatefulSet` of statefulset.go.
use qdrant_operator.Common.{
  ℕ, Text, Bool, true, false, Option, none, some, List, [], ◌∷◌, ◌++◌, if◌then◌else◌, codes,
}
use qdrant_operator.Common.Dict.{Dict}
use qdrant_operator.Api.Spec.{RetentionPolicy, ResourceRequirements, Affinity}
use qdrant_operator.Api.Cluster.{QdrantCluster}
use qdrant_operator.Resources.{
  rest_port, grpc_port, p2p_port, storage_volume_name, run_as_group, own_name, headless_name,
  app_name, selector_labels, labels,
}
use qdrant_operator.Resources.ConfigFile.{config_checksum}
use qdrant_operator.Resources.Objects.{ServicePort, port_of}
use qdrant_operator.Resources.Pod.{
  EnvVar, Volume, VolumeMount, container_env, volume_mounts, volumes, resolve_affinity,
  resolve_resources,
}

-- `corev1.Probe` with its HTTP request; an empty scheme is HTTP.
pub record Probe : Type 0 where
  pub path : Text
  pub port : ℕ
  pub scheme : Text
  pub initial_delay_seconds : ℕ
  pub period_seconds : ℕ
  pub failure_threshold : ℕ
  pub success_threshold : ℕ
  pub timeout_seconds : ℕ

-- The security context of the container.
pub record Hardening : Type 0 where
  pub run_as_user : ℕ
  pub run_as_group : ℕ
  pub run_as_non_root : Bool
  pub allow_privilege_escalation : Bool
  pub privileged : Bool
  pub read_only_root_filesystem : Bool
  pub drop : List Text
  pub seccomp_profile : Text

-- The target of a container's port is unused, so a port is one of a service.
pub record Container : Type 0 where
  pub name : Text
  pub image : Text
  pub image_pull_policy : Text
  pub command : List Text
  pub args : List Text
  pub env : List EnvVar
  pub resources : ResourceRequirements
  pub ports : List ServicePort
  pub readiness_probe : Probe
  pub pre_stop : List Text
  pub security : Hardening
  pub volume_mounts : List VolumeMount

pub record PodSpec : Type 0 where
  pub service_account_name : Text
  pub fs_group : ℕ
  pub fs_group_change_policy : Text
  pub seccomp_profile : Text
  pub node_selector : Dict Text Text
  pub tolerations : List Text
  pub affinity : Option Affinity
  pub container : Container
  pub volumes : List Volume

pub record VolumeClaim : Type 0 where
  pub name : Text
  pub access_modes : List Text
  pub storage_class_name : Text
  pub storage : Text

-- `pvc_retention` is what happens to claims when the set is deleted and when it is scaled.
pub record StatefulSet : Type 0 where
  pub name : Text
  pub namespace : Text
  pub labels : Dict Text Text
  pub replicas : Option ℕ
  pub service_name : Text
  pub pod_management_policy : Text
  pub pvc_retention : Option (Text × Text)
  pub update_strategy : Text
  pub partition : Option ℕ
  pub selector : Dict Text Text
  pub template_labels : Dict Text Text
  pub template_annotations : Dict Text Text
  pub pod : PodSpec
  pub volume_claims : List VolumeClaim

unfoldable pub readiness : QdrantCluster → Probe
readiness qc = record {
  path = codes "/readyz";
  port = rest_port;
  scheme = if qc.spec.config.tls_enabled then codes "HTTPS" else [];
  initial_delay_seconds = 5;
  period_seconds = 5;
  failure_threshold = 6;
  success_threshold = 1;
  timeout_seconds = 1;
}

abbrev retention_of : RetentionPolicy → Option (Text × Text)
retention_of RetentionPolicy.delete = some (codes "Delete", codes "Delete")
retention_of _ = none

unfoldable pub hardening : QdrantCluster → Hardening
hardening qc = record {
  run_as_user = qc.spec.run_as_user;
  run_as_group = run_as_group;
  run_as_non_root = true;
  allow_privilege_escalation = false;
  privileged = false;
  read_only_root_filesystem = true;
  drop = codes "ALL" ∷ [];
  seccomp_profile = codes "RuntimeDefault";
}

unfoldable pub container_of : QdrantCluster → Container
unfolding container_env resolve_resources readiness hardening volume_mounts
container_of qc = record {
  name = app_name;
  image = qc.spec.image.repository ++ (codes ":" ++ qc.spec.image.tag);
  image_pull_policy = codes "IfNotPresent";
  command = codes "/bin/bash" ∷ codes "-c" ∷ [];
  args = codes "./config/initialize.sh" ∷ [];
  env = container_env qc;
  resources = resolve_resources qc.spec.resources;
  ports =
      port_of (codes "http") rest_port
      ∷ port_of (codes "grpc") grpc_port
      ∷ port_of (codes "p2p") p2p_port
      ∷ [];
  readiness_probe = readiness qc;
  pre_stop = codes "sleep" ∷ codes "3" ∷ [];
  security = hardening qc;
  volume_mounts = volume_mounts qc;
}

unfoldable pub pod_spec : QdrantCluster → PodSpec
unfolding resolve_affinity container_of volumes
pod_spec qc = record {
  service_account_name = own_name qc;
  fs_group = qc.spec.fs_group;
  fs_group_change_policy = codes "Always";
  seccomp_profile = codes "RuntimeDefault";
  node_selector = qc.spec.node_selector;
  tolerations = qc.spec.tolerations;
  affinity = resolve_affinity qc;
  container = container_of qc;
  volumes = volumes qc;
}

-- The selector and the labels of the pods are the same, and the claim is the volume of the data.
unfoldable pub build_stateful_set : (Text → Text) → QdrantCluster → StatefulSet
unfolding config_checksum pod_spec
build_stateful_set sha256 qc = record {
  name = own_name qc;
  namespace = qc.namespace;
  labels = labels qc;
  replicas = some qc.spec.replicas;
  service_name = headless_name qc;
  pod_management_policy = codes "Parallel";
  pvc_retention = retention_of qc.spec.persistence.retention_policy;
  update_strategy = codes "RollingUpdate";
  partition = some 0;
  selector = selector_labels qc;
  template_labels = selector_labels qc;
  template_annotations = (codes "checksum/config", config_checksum sha256 qc) ∷ [];
  pod = pod_spec qc;
  volume_claims =
      record {
        name = storage_volume_name;
        access_modes = qc.spec.persistence.access_modes;
        storage_class_name = qc.spec.persistence.storage_class_name;
        storage = qc.spec.persistence.size;
      }
      ∷ [];
}
