-- ===== src/Cluster/Tests.antt =====
-- The theorem on the status of a cluster, at a concrete cluster.
use qdrant_operator.Common.{refl, text_eq, All, true, false, none, some, [], ◌∷◌, ◌≡◌, ◌⊎◌, codes}
use qdrant_operator.Qdrant.{active}
use qdrant_operator.Rebalance.Operations.{operations}
use qdrant_operator.Cluster.Observe.{Reads, observe}
use qdrant_operator.Cluster.Status.{StatusInputs, reconcile_status, tls_enabled}
use qdrant_operator.Cluster.Gate.{IsGated, refreshed, status_gate}
use qdrant_operator.Cluster.Endpoint.{
  Certificates, client_base_url, peer_base_url, new_cluster_client,
}
use qdrant_operator.Cluster.Secure.{speaks_https, IsTrust, new_cluster_client-IsTrust}
use qdrant_operator.Api.Cluster.{QdrantCluster}
use qdrant_operator.NodeFailure
use qdrant_operator.Cluster.Apply
use qdrant_operator.Cluster.Apply.{LiveSts}
use qdrant_operator.Cluster.Reconcile
use qdrant_operator.Cluster.Gated.{IsGatedWrite}
use qdrant_operator.Upgrade.{rollout_in_progress}
use qdrant_operator.Cluster.Releases.{IsCautious, reconcile-IsCautious}
use qdrant_operator.Cluster.Applying.{reconcile-IsGatedWrite}
use qdrant_operator.Fixtures.{
  condition_list, docs, first_peer, second_peer, shard_at, placed, cluster_with, start_pass,
  all_accepted, sample_spec,
}

-- Two peers are seen, and the first holds both shards.
abbrev both_seen : Reads
both_seen = record {
  cluster_info = some (record {
    enabled = true;
    peer_id = 11;
    peers = first_peer ∷ second_peer ∷ [];
    raft_leader = 11;
    pending_operations = 0;
  });
  list_collections = some (docs ∷ []);
  collection_cluster = λ name. some (placed (shard_at 0 11 active ∷ shard_at 1 11 active ∷ []));
  get_collection = λ name. none;
  collections = none;
  peer_cluster = none;
}

abbrev steady : StatusInputs
steady = record {
  now = 7;
  conditions = condition_list;
  answers = all_accepted;
  reads = both_seen;
  live = record {
    update_revision = codes "a";
    current_revision = codes "a";
    updated_replicas = 2;
    ready_replicas = 2;
  };
  live_replicas = 2;
  selector = [];
  same_status = λ s t. false;
}

status_gate_example :
    (operations (reconcile_status steady (start_pass (cluster_with 2 none))).pass.calls
      ≡ operations [])
    ⊎ IsGated steady 2 []
        (observe steady.reads (refreshed steady (cluster_with 2 none))).1
        (reconcile_status steady (start_pass (cluster_with 2 none))).pass.calls
status_gate_example = status_gate steady (start_pass (cluster_with 2 none))

-- Three replicas are wanted, two are there, and a rollout has one pod left.
abbrev two_live : LiveSts
two_live = record {
  service_name = codes "q-headless";
  storage = codes "10Gi" ∷ [];
  selector = [];
  spec_replicas = some 2;
  status = record {
    update_revision = codes "b";
    current_revision = codes "a";
    updated_replicas = 1;
    ready_replicas = 2;
  };
  status_replicas = 2;
}

abbrev grow : Reconcile.Inputs
grow = record {
  now = 7;
  conditions = condition_list;
  sha256 = λ t. t;
  cluster = Reconcile.found (cluster_with 3 none);
  pods = some [];
  nodes = λ n. NodeFailure.not_found;
  delete_pod = λ p. NodeFailure.deleted;
  apply = record {
    owned = λ c. true;
    read = λ c. Apply.present;
    create = λ c. Apply.created;
    read_again = λ c. Apply.present;
    update = λ c. true;
  };
  live = some two_live;
  equalities = record { same_quantity = text_eq; same_selector = λ a b. true };
  reads = both_seen;
  drain = record {
    now = 7;
    answers = all_accepted;
    hostname = λ u. none;
    live = record { spec_replicas = 2; replicas = 2; ready_replicas = 2 };
    collections = some [];
  };
  status_inputs = some steady;
}

reconcile-IsGatedWrite_example :
    All (IsGatedWrite grow (cluster_with 3 none)) (Reconcile.reconcile grow).calls
reconcile-IsGatedWrite_example = reconcile-IsGatedWrite grow (cluster_with 3 none) refl

reconcile-IsCautious_example :
    All (IsCautious grow (cluster_with 3 none) two_live) (Reconcile.reconcile grow).calls
unfolding rollout_in_progress text_eq
reconcile-IsCautious_example =
    reconcile-IsCautious grow (cluster_with 3 none) two_live refl refl refl

-- TLS from a secret that holds a CA.
abbrev encrypted : QdrantCluster
encrypted = record (cluster_with 2 none) {
  spec = record (sample_spec 2) {
    config = record {
      cluster_enabled = true;
      tls_enabled = true;
      tls = some (record {
        secret_name = codes "cert";
        cert_key = [];
        key_key = [];
        ca_cert_key = [];
        cert_ttl_seconds = 0;
      });
      raw_override = none;
    };
  };
}

abbrev certificates : Certificates
certificates = record {
  secret = λ ns name. some ((codes "ca.crt", codes "PEM") ∷ []);
  is_pem = λ t. true;
}

new_cluster_client-IsTrust_example :
    let c = new_cluster_client certificates encrypted (client_base_url encrypted) in
    let p = new_cluster_client certificates encrypted (peer_base_url encrypted 1) in
    ((speaks_https c ≡ tls_enabled encrypted) × IsTrust certificates encrypted c)
    × ((speaks_https p ≡ tls_enabled encrypted) × IsTrust certificates encrypted p)
new_cluster_client-IsTrust_example = new_cluster_client-IsTrust certificates encrypted 1
