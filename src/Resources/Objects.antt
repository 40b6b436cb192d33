-- ===== src/Resources/Objects.antt =====
-- service.go, serviceaccount.go and pdb.go.
use qdrant_operator.Common.{
  ℕ, ltb, Text, Bool, true, false, Option, none, some, List, [], ◌∷◌, is_empty, if◌then◌else◌,
  codes,
}
use qdrant_operator.Common.Dict.{Dict}
use qdrant_operator.Api.Cluster.{QdrantCluster}
use qdrant_operator.Resources.{
  rest_port, grpc_port, p2p_port, own_name, headless_name, selector_labels, labels,
}

-- The port of a service, its target the same number.
pub record ServicePort : Type 0 where
  pub name : Text
  pub port : ℕ
  pub protocol : Text
  pub target_port : ℕ

abbrev pub port_of : Text → ℕ → ServicePort
port_of name p = record { name = name; port = p; protocol = codes "TCP"; target_port = p }

abbrev service_ports : List ServicePort
service_ports =
    port_of (codes "http") rest_port
    ∷ port_of (codes "grpc") grpc_port
    ∷ port_of (codes "p2p") p2p_port
    ∷ []

-- `type` and `cluster_ip` are empty where the builder leaves them to apiserver.
pub record Service : Type 0 where
  pub name : Text
  pub namespace : Text
  pub labels : Dict Text Text
  pub annotations : Dict Text Text
  pub type : Text
  pub cluster_ip : Text
  pub publish_not_ready_addresses : Bool
  pub selector : Dict Text Text
  pub ports : List ServicePort

unfoldable pub build_headless_service : QdrantCluster → Service
build_headless_service qc = record {
  name = headless_name qc;
  namespace = qc.namespace;
  labels = labels qc;
  annotations = [];
  type = [];
  cluster_ip = codes "None";
  publish_not_ready_addresses = true;
  selector = selector_labels qc;
  ports = service_ports;
}

unfoldable pub build_client_service : QdrantCluster → Service
build_client_service qc = record {
  name = own_name qc;
  namespace = qc.namespace;
  labels = labels qc;
  annotations = qc.spec.service_annotations;
  type = if is_empty qc.spec.service_type then codes "ClusterIP" else qc.spec.service_type;
  cluster_ip = [];
  publish_not_ready_addresses = false;
  selector = selector_labels qc;
  ports = service_ports;
}

pub record ServiceAccount : Type 0 where
  pub name : Text
  pub namespace : Text
  pub labels : Dict Text Text

unfoldable pub build_service_account : QdrantCluster → ServiceAccount
build_service_account qc = record {
  name = own_name qc;
  namespace = qc.namespace;
  labels = labels qc;
}

pub record PodDisruptionBudget : Type 0 where
  pub name : Text
  pub namespace : Text
  pub labels : Dict Text Text
  pub min_available : ℕ
  pub selector : Dict Text Text

-- A single pod gets no budget: it would keep its node from ever being drained.
unfoldable pub build_pod_disruption_budget : QdrantCluster → Option PodDisruptionBudget
build_pod_disruption_budget qc =
    if ltb qc.spec.replicas 2
    then none
    else some (record {
      name = own_name qc;
      namespace = qc.namespace;
      labels = labels qc;
      min_available = 1;
      selector = selector_labels qc;
    })
