-- ===== src/Collection/Tests.antt =====
-- The theorems on resharding, at a concrete workflow.
use qdrant_operator.Common.{refl, none, [], codes, subst, sym}
use qdrant_operator.Api.Collection.{CollectionDeletePolicy, ReshardPhase}
use qdrant_operator.Collection.Reshard.{reconcile_reshard}
use qdrant_operator.Collection.Disposal.{IsReversible}
use qdrant_operator.Collection.Reversible.{reshard-IsReversible}
use qdrant_operator.Collection.Disposition.{IsDisposed, reshard-IsDisposed}
use qdrant_operator.Fixtures.{docs, cluster_with}
use qdrant_operator.Collection.Samples.{workflow, wants, answers}

abbrev IsFinal : ReshardPhase → Type 0
IsFinal ReshardPhase.finalizing = Unit
IsFinal _ = ⊥

reshard-IsReversible_example :
    IsReversible
      (codes "docs-rs-g2")
      []
      (reconcile_reshard answers
        (wants 4)
        (cluster_with 2 none)
        (workflow ReshardPhase.swapping)).pass.calls
reshard-IsReversible_example =
    reshard-IsReversible answers (wants 4) (cluster_with 2 none) (workflow ReshardPhase.swapping)
      (λ e. subst IsFinal (sym e) tt)

reshard-IsDisposed_example :
    IsDisposed CollectionDeletePolicy.retain docs []
      (reconcile_reshard answers
        (wants 4)
        (cluster_with 2 none)
        (workflow ReshardPhase.finalizing)).pass.calls
reshard-IsDisposed_example =
    reshard-IsDisposed answers (wants 4) (cluster_with 2 none) (workflow ReshardPhase.finalizing)
      refl refl
