-- ===== src/Collection/Disposition.antt =====
-- What becomes of the source once the alias has been swapped.
use qdrant_operator.Common.{
  Text, false, List, [], ◌∷◌, ◌++◌, ◌≡◌, ◌∙◌, sym, subst, Bool-cases, inl, inr,
}
use qdrant_operator.Api.Conditions.{Reason}
use qdrant_operator.Api.Cluster.{QdrantCluster}
use qdrant_operator.Api.Collection.{CollectionDeletePolicy, ReshardPhase, ReshardStatus}
use qdrant_operator.Collection.Pass.{
  CollectionCall, delete_collection, event, Inputs, CollectionPass,
}
use qdrant_operator.Collection.Reshard.{
  dispose_source, finalize, target_changed, reshard_phase, reconcile_reshard,
}
use qdrant_operator.Collection.Disposal.{
  deleted, deleted-append, harmless, event-harmless, ready-deleted,
}

-- The source is deleted where the policy is Delete, and nothing is where it is Retain.
abbrev pub IsDisposed :
    CollectionDeletePolicy → Text → List CollectionCall → List CollectionCall → Type 0
IsDisposed CollectionDeletePolicy.delete source before after =
    deleted after ≡ deleted before ++ (source ∷ [])
IsDisposed CollectionDeletePolicy.retain source before after = deleted after ≡ deleted before

dispose-IsDisposed :
    (inp : Inputs) (p : CollectionPass) (rs : ReshardStatus) (policy : CollectionDeletePolicy)
    → IsDisposed policy rs.source_collection p.calls (dispose_source inp p rs policy).pass.calls
unfolding dispose_source
dispose-IsDisposed inp p rs CollectionDeletePolicy.delete =
    elim (Bool-cases (inp.accepts p.calls c)) [
      | inl ok ↦ rw ok (
          ready-deleted inp _ _
          ∙ harmless _ (event Reason.reshard_completed) (event-harmless _)
          ∙ harmless (p.calls ++ (c ∷ [])) (event Reason.source_deleted) (event-harmless _)
          ∙ gone)
      | inr bad ↦ rw bad (
          harmless (p.calls ++ (c ∷ [])) (event Reason.source_disposal_retry) (event-harmless _)
          ∙ gone)
    ]
  where
    c : CollectionCall
    c = delete_collection rs.source_collection

    gone : deleted (p.calls ++ (c ∷ [])) ≡ deleted p.calls ++ (rs.source_collection ∷ [])
    gone = unfold deleted in deleted-append p.calls (delete_collection rs.source_collection ∷ [])
dispose-IsDisposed inp p rs CollectionDeletePolicy.retain =
    ready-deleted inp _ _
    ∙ harmless _ (event Reason.reshard_completed) (event-harmless _)
    ∙ harmless p.calls (event Reason.source_retained) (event-harmless _)

-- Past the commit point, with the same target as before, a pass of the workflow deletes exactly the
-- source where the object says Delete, and nothing where it says Retain.
pub reshard-IsDisposed :
    (inp : Inputs) (p : CollectionPass) (cluster : QdrantCluster) (rs : ReshardStatus)
    → rs.phase ≡ ReshardPhase.finalizing
    → target_changed p.collection rs ≡ false
    → IsDisposed p.collection.spec.on_delete rs.source_collection p.calls
        (reconcile_reshard inp p cluster rs).pass.calls
unfolding reconcile_reshard reshard_phase finalize
reshard-IsDisposed inp p cluster rs e same = rw same (
    subst
      (λ phase.
        IsDisposed p.collection.spec.on_delete rs.source_collection p.calls
          (reshard_phase inp p cluster rs phase).pass.calls)
      (sym e) (dispose-IsDisposed inp _ rs p.collection.spec.on_delete))
