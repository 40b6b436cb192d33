-- ===== src/Restore/Tests.antt =====
-- The theorem on restores, at a concrete restore.
use qdrant_operator.Common.{true, false, none, [], ◌∷◌, refl, codes}
use qdrant_operator.Api.Restore.{RestorePhase, RestoreSource, QdrantRestore}
use qdrant_operator.Restore.{Inputs, found, start, reconcile}
use qdrant_operator.Restore.Progress.{IsProgress, restore-IsProgress}
use qdrant_operator.Fixtures.{condition_list, docs, cluster_with}

abbrev second_source : RestoreSource
second_source = record { peer = 1; location = codes "http://q-1/docs.snapshot" }

-- The first of two peers has been restored.
abbrev half_way : QdrantRestore
half_way = record {
  name = codes "r";
  namespace = codes "ns";
  generation = 1;
  spec = record {
    cluster_ref = codes "q";
    collection = docs;
    from_backup = [];
    sources = [];
    priority = [];
  };
  status = record {
    phase = RestorePhase.restoring;
    observed_generation = 1;
    pending = second_source ∷ [];
    restored = record { peer = 0; location = codes "http://q-0/docs.snapshot" } ∷ [];
    completion_time = none;
    conditions = [];
  };
}

abbrev answers : Inputs
answers = record {
  now = 7;
  conditions = condition_list;
  same_status = λ s t. false;
  cluster = found (cluster_with 2 none);
  backup = λ name. none;
  accepts = λ c. true;
}

restore-IsProgress_example : IsProgress (start half_way) (reconcile answers half_way).pass
restore-IsProgress_example = restore-IsProgress answers half_way refl
