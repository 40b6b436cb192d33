-- ===== src/NodeFailure/Tests.antt =====
-- The theorem on stuck pods, at a concrete list of them.
use qdrant_operator.Common.{some, [], ◌∷◌, codes}
use qdrant_operator.Pass.{minutes}
use qdrant_operator.NodeFailure.{Pod, not_found, deleted, reconcile_stuck_pods}
use qdrant_operator.NodeFailure.Restraint.{IsRestrained, one_stuck_pod}

abbrev stranded : Pod
stranded = record { name = codes "q-0"; node_name = codes "gone" }

one_stuck_pod_example :
    IsRestrained 2
      (λ n. not_found)
      (minutes 9)
      (stranded ∷ [])
      (reconcile_stuck_pods 2 (some (stranded ∷ [])) (λ n. not_found) (minutes 9) (λ p. deleted))
one_stuck_pod_example = one_stuck_pod 2 (stranded ∷ []) (λ n. not_found) (minutes 9) (λ p. deleted)
