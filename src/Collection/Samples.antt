-- ===== src/Collection/Samples.antt =====
-- A collection that is resharded from one shard to four: concrete values for tests.
use qdrant_operator.Common.{ℕ, true, false, none, some, [], codes}
use qdrant_operator.Api.Collection.{
  CollectionDeletePolicy, ReshardPolicy, ReshardPhase, CollectionPhase, ReshardStatus,
}
use qdrant_operator.Collection.Pass.{Inputs, CollectionPass, failed}
use qdrant_operator.Fixtures.{condition_list, docs}

-- A workflow towards four shards.
abbrev pub workflow : ReshardPhase → ReshardStatus
workflow phase = record {
  phase = phase;
  source_collection = docs;
  shadow_collection = codes "docs-rs-g2";
  target_shard_number = 4;
  copied_points = 0;
  total_points = 9;
  cursor = [];
  started_at = none;
  attempts = 0;
}

abbrev pub wants : ℕ → CollectionPass
wants n = record {
  collection = record {
    name = docs;
    namespace = codes "ns";
    generation = 2;
    deleted = false;
    finalizer = false;
    spec = record {
      cluster_ref = codes "q";
      collection_name = [];
      vectors = record { size = 8; distance = codes "Cosine" };
      shard_number = some n;
      replication_factor = 1;
      on_delete = CollectionDeletePolicy.retain;
      alias = codes "live";
      reshard = ReshardPolicy.auto;
    };
    status = record {
      phase = CollectionPhase.resharding;
      adopted = false;
      points_count = 9;
      observed_generation = 2;
      active_collection = docs;
      reshard = none;
      conditions = [];
    };
  };
  calls = [];
}

-- The collections can be read, the aliases cannot.
abbrev pub answers : Inputs
answers = record {
  now = 7;
  conditions = condition_list;
  cluster = failed;
  get_collection = λ calls name. none;
  list_aliases = λ calls. none;
  scroll_points = λ calls name cursor. none;
  accepts = λ calls c. true;
}
