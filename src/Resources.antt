-- ===== src/Resources.antt =====
-- internal/resources: the kubernetes objects that are rendered from a QdrantCluster. names.go is here,
-- the builders are in the children. Objects keep the fields that the builders set.
pub mod ConfigFile
pub mod Objects
pub mod Pod
pub mod StatefulSet
pub mod Wiring
mod Tests
use qdrant_operator.Common.{ℕ, Text, List, [], ◌∷◌, ◌++◌, codes}
use qdrant_operator.Common.Dict.{Dict, text_key}
use qdrant_operator.Common.Dict
use qdrant_operator.Api.Cluster.{QdrantCluster}

abbrev pub rest_port : ℕ
rest_port = 6333

abbrev pub grpc_port : ℕ
grpc_port = 6334

abbrev pub p2p_port : ℕ
p2p_port = 6335

abbrev pub init_script_file : Text
init_script_file = codes "initialize.sh"

abbrev pub prod_config_file : Text
prod_config_file = codes "production.yaml"

abbrev pub config_mount_dir : Text
config_mount_dir = codes "/qdrant/config"

abbrev pub config_volume_name : Text
config_volume_name = codes "qdrant-config"

abbrev pub storage_volume_name : Text
storage_volume_name = codes "qdrant-storage"

abbrev pub snapshots_volume_name : Text
snapshots_volume_name = codes "qdrant-snapshots"

abbrev pub init_volume_name : Text
init_volume_name = codes "qdrant-init"

abbrev pub default_api_key_secret_key : Text
default_api_key_secret_key = codes "api-key"

abbrev pub default_tls_cert_key : Text
default_tls_cert_key = codes "tls.crt"

abbrev pub default_tls_key_key : Text
default_tls_key_key = codes "tls.key"

abbrev pub default_tls_ca_cert_key : Text
default_tls_ca_cert_key = codes "ca.crt"

abbrev pub tls_cert_file : Text
tls_cert_file = codes "cert.pem"

abbrev pub tls_key_file : Text
tls_key_file = codes "key.pem"

abbrev pub tls_ca_cert_file : Text
tls_ca_cert_file = codes "cacert.pem"

abbrev pub tls_volume_name : Text
tls_volume_name = codes "tls"

abbrev pub default_cert_ttl_seconds : ℕ
default_cert_ttl_seconds = 3600

abbrev pub default_s3_access_key_key : Text
default_s3_access_key_key = codes "AWS_ACCESS_KEY_ID"

abbrev pub default_s3_secret_key_key : Text
default_s3_secret_key_key = codes "AWS_SECRET_ACCESS_KEY"

abbrev pub default_s3_region : Text
default_s3_region = codes "us-east-1"

abbrev pub storage_mount_dir : Text
storage_mount_dir = codes "/qdrant/storage"

abbrev pub snapshots_mount_dir : Text
snapshots_mount_dir = codes "/qdrant/snapshots"

abbrev pub init_mount_dir : Text
init_mount_dir = codes "/qdrant/init"

abbrev pub tls_mount_dir : Text
tls_mount_dir = codes "/qdrant/tls"

abbrev pub run_as_group : ℕ
run_as_group = 2000

-- `Name`, `ClientName`, `ConfigMapName`, `SAName` and `PDBName` are the object's own name.
abbrev pub own_name : QdrantCluster → Text
own_name qc = qc.name

abbrev pub headless_name : QdrantCluster → Text
headless_name qc = qc.name ++ codes "-headless"

abbrev pub app_name : Text
app_name = codes "qdrant"

unfoldable pub selector_labels : QdrantCluster → Dict Text Text
selector_labels qc =
    (codes "app", app_name)
    ∷ (codes "app.kubernetes.io/name", app_name)
    ∷ (codes "app.kubernetes.io/instance", qc.name)
    ∷ []

unfoldable pub labels : QdrantCluster → Dict Text Text
unfolding selector_labels Dict.put
labels qc =
    Dict.put (codes "app.kubernetes.io/managed-by") (codes "qdrant-operator") (selector_labels qc)

-- The pieces of `fmt.Sprintf`, one after the other.
abbrev pub join : List Text → Text
join [] = []
join (t ∷ ts) = t ++ join ts
