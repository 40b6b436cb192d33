-- ===== src/Fixtures.antt =====
-- Concrete values that the tests share: a small cluster, a list of conditions, and the answers to calls.
use qdrant_operator.Common.{
  ℕ, Text, Bool, true, false, Option, none, some, List, [], ◌∷◌, ◌≡◌, ◌≢◌, refl, codes,
  if◌then◌else◌,
}
use qdrant_operator.Qdrant.{Peer, ShardInfo, CollectionClusterInfo, ShardState}
use qdrant_operator.Api.Conditions.{
  ConditionType, ready, degraded, progressing, Condition, ConditionLib,
}
use qdrant_operator.Api.Spec.{RetentionPolicy, ClusterSpec}
use qdrant_operator.Api.Cluster.{running, QdrantCluster, MoveStatus}
use qdrant_operator.Pass.{Pass, Answers}
use qdrant_operator.Rebalance.Observation.{Observation}

abbrev same_type : ConditionType → ConditionType → Bool
same_type ready ready = true
same_type degraded degraded = true
same_type progressing progressing = true
same_type _ _ = false

abbrev find_condition : List Condition → ConditionType → Option Condition
find_condition [] t = none
find_condition (c ∷ cs) t = if same_type c.type t then some c else find_condition cs t

abbrev holds_of : Option Condition → Bool
holds_of none = false
holds_of (some c) = c.status

same_type_refl : (t : ConditionType) → same_type t t ≡ true
same_type_refl ready = refl
same_type_refl degraded = refl
same_type_refl progressing = refl

same_type-other : (s t : ConditionType) → t ≢ s → same_type s t ≡ false
same_type-other ready ready h = absurd (h refl)
same_type-other degraded degraded h = absurd (h refl)
same_type-other progressing progressing h = absurd (h refl)
same_type-other ready degraded h = refl
same_type-other ready progressing h = refl
same_type-other degraded ready h = refl
same_type-other degraded progressing h = refl
same_type-other progressing ready h = refl
same_type-other progressing degraded h = refl

-- The newest condition of a type stands in front.
pub condition_list : ConditionLib
condition_list = record {
  set_status_condition = λ cs c. c ∷ cs;
  find_status_condition = find_condition;
  is_status_condition_true = λ cs t. holds_of (find_condition cs t);
  find_set = λ cs c. rw (same_type_refl c.type) refl;
  find_set_other = λ cs c t h. rw (same_type-other c.type t h) refl;
}

abbrev pub docs : Text
docs = codes "docs"

abbrev pub first_peer : Peer
first_peer = record { id = 11; uri = codes "http://q-0.q-headless.ns.svc:6335" }

abbrev pub second_peer : Peer
second_peer = record { id = 12; uri = codes "http://q-1.q-headless.ns.svc:6335" }

abbrev pub shard_at : ℕ → ℕ → ShardState → ShardInfo
shard_at sid pid state = record { shard_id = sid; peer_id = pid; state = state; points_count = 5 }

abbrev pub placed : List ShardInfo → CollectionClusterInfo
placed shards = record { peer_id = 11; shard_count = 2; shards = shards; transfers = [] }

abbrev pub seen : List ShardInfo → ℕ → Observation
seen shards factor = record {
  peers = first_peer ∷ second_peer ∷ [];
  collections = (docs, placed shards) ∷ [];
  rf = (docs, factor) ∷ [];
  sizes = [];
  sizes_complete = false;
}

-- Without authentication, TLS or snapshots elsewhere.
abbrev pub sample_spec : ℕ → ClusterSpec
sample_spec replicas = record {
  image = record { repository = codes "qdrant/qdrant"; tag = codes "v1.19.2" };
  replicas = replicas;
  resources = record { limits = none; requests = none };
  persistence = record {
    size = codes "10Gi";
    storage_class_name = codes "ceph-rbd";
    access_modes = codes "ReadWriteOnce" ∷ [];
    retention_policy = RetentionPolicy.retain;
  };
  config = record { cluster_enabled = true; tls_enabled = false; tls = none; raw_override = none };
  service_type = codes "ClusterIP";
  service_annotations = [];
  api_key = none;
  read_only_api_key = none;
  run_as_user = 1000;
  fs_group = 3000;
  rebalance = none;
  snapshots = none;
  node_selector = [];
  tolerations = [];
  affinity = none;
}

abbrev pub cluster_with : ℕ → Option MoveStatus → QdrantCluster
cluster_with replicas move = record {
  name = codes "q";
  namespace = codes "ns";
  generation = 1;
  spec = sample_spec replicas;
  status = record {
    phase = running;
    replicas = 2;
    ready_replicas = 2;
    peers = [];
    observed_generation = 1;
    shard_distribution = [];
    planned_moves = [];
    active_move = move;
    move_backoff = 0;
    drain_status = none;
    selector = [];
    conditions = [];
  };
}

abbrev pub start_pass : QdrantCluster → Pass
start_pass qc = record { cluster = qc; calls = [] }

abbrev pub all_accepted : Answers
all_accepted = record {
  status_update = λ s. true;
  shard_operation = λ c. true;
  replicas_update = λ n. true;
}
