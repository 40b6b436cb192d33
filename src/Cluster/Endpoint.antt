-- ===== src/Cluster/Endpoint.antt =====
-- internal/controller/tls.go from `clusterScheme` on, with internal/qdrant/tls.go and `NewHTTPClient`:
-- where the operator reaches a cluster, and which CA it checks the server by.
use qdrant_operator.Common.{
  ℕ, Text, Bool, Option, none, some, [], ◌∷◌, ◌++◌, is_empty, codes, format_uint, if◌then◌else◌,
}
use qdrant_operator.Common.Dict
use qdrant_operator.Common.Dict.{Dict, text_key}
use qdrant_operator.Api.Spec.{TlsSpec}
use qdrant_operator.Api.Cluster.{QdrantCluster}
use qdrant_operator.Resources.{rest_port, own_name, headless_name, default_tls_ca_cert_key, join}
use qdrant_operator.Cluster.Status.{tls_enabled}

unfoldable pub cluster_scheme : QdrantCluster → Text
unfolding tls_enabled
cluster_scheme qc = if tls_enabled qc then codes "https" else codes "http"

unfoldable pub client_base_url : QdrantCluster → Text
unfolding cluster_scheme
client_base_url qc =
    cluster_scheme qc
    ++ (codes "://"
        ++ join
            (own_name qc ∷ codes "." ∷ qc.namespace ∷ codes ".svc:" ∷ format_uint rest_port ∷ []))

unfoldable pub peer_base_url : QdrantCluster → ℕ → Text
unfolding cluster_scheme
peer_base_url qc ordinal =
    cluster_scheme qc
    ++ (codes "://"
        ++ join (
            qc.name
            ∷ codes "-"
            ∷ format_uint ordinal
            ∷ codes "."
            ∷ headless_name qc
            ∷ codes "."
            ∷ qc.namespace
            ∷ codes ".svc:"
            ∷ format_uint rest_port
            ∷ []))

-- A client with the default transport, or with one that trusts only the CA of a PEM text and wants
-- TLS 1.2. Both wait fifteen seconds.
pub data Connection : Type 0 where
  default_transport : Text → Connection
  trusting : Text → Text → Connection

abbrev pub new_http_client : Text → Connection
new_http_client base_url = default_transport base_url

-- What is outside of the operator: the data of a secret, by namespace and name, if it can be read, and
-- whether a text holds a PEM certificate.
pub record Certificates : Type 0 where
  pub secret : Text → Text → Option (Dict Text Text)
  pub is_pem : Text → Bool

abbrev pub new_https_client : Certificates → Text → Text → Option Connection
new_https_client certs base_url ca_pem =
    if certs.is_pem ca_pem then some (trusting base_url ca_pem) else none

abbrev ca_key : TlsSpec → Text
ca_key tls = if is_empty tls.ca_cert_key then default_tls_ca_cert_key else tls.ca_cert_key

abbrev filled_ca : Option Text → Option Text
filled_ca none = none
filled_ca (some ca) = if is_empty ca then none else some ca

abbrev ca_in : TlsSpec → Option (Dict Text Text) → Option Text
ca_in tls none = none
ca_in tls (some entries) = filled_ca (Dict.lookup (ca_key tls) entries)

-- Only called with a TLS section.
unfoldable pub read_ca_cert : Certificates → QdrantCluster → TlsSpec → Option Text
read_ca_cert certs qc tls = ca_in tls (certs.secret qc.namespace tls.secret_name)

abbrev pub or_default_transport : Text → Option Connection → Connection
or_default_transport base_url none = new_http_client base_url
or_default_transport base_url (some conn) = conn

abbrev pub with_ca : Certificates → Text → Option Text → Connection
with_ca certs base_url none = new_http_client base_url
with_ca certs base_url (some ca) =
    or_default_transport base_url (new_https_client certs base_url ca)

abbrev pub with_tls : Certificates → QdrantCluster → Text → Option TlsSpec → Connection
with_tls certs qc base_url none = new_http_client base_url
with_tls certs qc base_url (some tls) = with_ca certs base_url (read_ca_cert certs qc tls)

unfoldable pub new_cluster_client : Certificates → QdrantCluster → Text → Connection
unfolding tls_enabled read_ca_cert
new_cluster_client certs qc base_url =
    if tls_enabled qc
    then with_tls certs qc base_url qc.spec.config.tls
    else new_http_client base_url
