-- ===== src/Collection/Reversible.antt =====
-- The phases of resharding before the commit point can be undone: they delete the shadow at most.
use qdrant_operator.Common.{
  ◌==◌, Text, true, Option, none, some, List, [], ◌∷◌, ◌++◌, is_empty, ◌≡◌, ◌≢◌, refl, ◌∙◌, ap,
  Bool-cases, inl, inr, length,
}
use qdrant_operator.Qdrant.{CollectionInfo}
use qdrant_operator.Api.Conditions.{Reason}
use qdrant_operator.Api.Cluster.{QdrantCluster}
use qdrant_operator.Api.Collection.{ReshardPhase, ReshardStatus}
use qdrant_operator.Collection.Pass.{
  CollectionCall, create_collection, delete_collection, update_aliases, upsert_points, event,
  Inputs, CollectionPass, Outcome, called, cluster_move_active,
}
use qdrant_operator.Collection.Reshard.{
  prepare_shadow, finish_copy, after_batch, copy_step, verify_swap, swap_alias, abort_reshard,
  target_changed, reshard_phase, reconcile_reshard, swap_actions, shadow_spec, prepare_with,
  finish_with, copy_with, verify_with, swap_with, alias_is,
}
use qdrant_operator.Rebalance.SizePlanner.{add64}
use qdrant_operator.Collection.Disposal.{
  deleted, deleted-append, harmless, commit-deleted, fail-deleted, degraded-deleted, IsReversible,
  untouched, discarded, create-harmless, aliases-harmless, upsert-harmless,
}

-- A call that deletes nothing stands before a reversible end.
after_call :
    (shadow : Text) (before : List CollectionCall) (c : CollectionCall)
    (after : List CollectionCall)
    → deleted (c ∷ []) ≡ []
    → IsReversible shadow (before ++ (c ∷ [])) after
    → IsReversible shadow before after
after_call shadow before c after e (untouched h) = untouched (h ∙ harmless before c e)
after_call shadow before c after e (discarded h) =
    discarded (h ∙ ap (λ ds. ds ++ (shadow ∷ [])) (harmless before c e))

module _ (inp : Inputs) (rs : ReshardStatus) where
  abbrev IsUndoable : CollectionPass → Outcome → Type 0
  IsUndoable p o = IsReversible rs.shadow_collection p.calls o.pass.calls

  prepare-IsUndoable :
      (p : CollectionPass) (o : Option CollectionInfo) → IsUndoable p (prepare_with inp p rs o)
  unfolding prepare_with
  prepare-IsUndoable p none = discarded (fail-deleted inp p rs _)
  prepare-IsUndoable p (some info) = elim (Bool-cases info.found) [
    | inr absent ↦ elim (Bool-cases (inp.accepts p.calls c)) [
      | inl ok ↦
          rw (absent, ok)
            (after_call rs.shadow_collection p.calls c _ (create-harmless _ _)
              (untouched (commit-deleted inp _ _)))
      | inr bad ↦
          rw (absent, bad)
            (after_call rs.shadow_collection p.calls c _ (create-harmless _ _)
              (discarded (fail-deleted inp (called p c) rs _)))
    ]
    | inl there ↦ elim (Bool-cases (info.shard_number == rs.target_shard_number)) [
      | inl same ↦ rw (there, same) (untouched (commit-deleted inp _ _))
      | inr other ↦ rw (there, other) (untouched (degraded-deleted inp _ _))
    ]
  ]
    where
      c : CollectionCall
      c = create_collection rs.shadow_collection (shadow_spec p.collection rs)

  finish-IsUndoable :
      (p : CollectionPass) (o : Option CollectionInfo) → IsUndoable p (finish_with inp p rs o)
  unfolding finish_with
  finish-IsUndoable p none = discarded (fail-deleted inp p rs _)
  finish-IsUndoable p (some src) = elim (Bool-cases (src.points_count == rs.total_points)) [
    | inl same ↦ rw same (untouched (commit-deleted inp _ _))
    | inr other ↦ rw other (discarded (fail-deleted inp p rs _))
  ]

  verify-IsUndoable :
      (p : CollectionPass) (o : Option (List (Text × Text))) → IsUndoable p (verify_with inp p rs o)
  unfolding verify_with
  verify-IsUndoable p none = discarded (fail-deleted inp p rs _)
  verify-IsUndoable p (some after) =
      elim (Bool-cases (alias_is after p.collection.spec.alias rs.shadow_collection)) [
        | inl done ↦ rw done (untouched (commit-deleted inp _ _))
        | inr other ↦ rw other (discarded (fail-deleted inp p rs _))
      ]

  swap-IsUndoable :
      (p : CollectionPass) (o : Option (List (Text × Text))) → IsUndoable p (swap_with inp p rs o)
  unfolding swap_with verify_swap
  swap-IsUndoable p none = discarded (fail-deleted inp p rs _)
  swap-IsUndoable p (some aliases) = elim (Bool-cases (inp.accepts p.calls c)) [
    | inl ok ↦ rw ok (
        after_call rs.shadow_collection p.calls c _ (aliases-harmless _)
          (verify-IsUndoable (called p c) _))
    | inr bad ↦ rw bad (
        after_call rs.shadow_collection p.calls c _ (aliases-harmless _)
          (discarded (fail-deleted inp (called p c) rs _)))
  ]
    where
      c : CollectionCall
      c = update_aliases (swap_actions aliases p.collection.spec.alias rs.shadow_collection)

after_batch-undoable :
    (inp : Inputs) (rs : ReshardStatus) (p : CollectionPass) (next : Option Text)
    → IsReversible rs.shadow_collection p.calls (after_batch inp p rs next).pass.calls
unfolding after_batch finish_copy
after_batch-undoable inp rs p none = finish-IsUndoable inp rs p _
after_batch-undoable inp rs p (some next) = untouched (commit-deleted inp _ _)

copy-undoable :
    (inp : Inputs) (rs : ReshardStatus) (p : CollectionPass) (o : Option (List Text × Option Text))
    → IsReversible rs.shadow_collection p.calls (copy_with inp p rs o).pass.calls
unfolding copy_with
copy-undoable inp rs p none = discarded (fail-deleted inp p rs _)
copy-undoable inp rs p (some (points, next)) = elim (Bool-cases (is_empty points)) [
  | inl nil ↦ rw nil (after_batch-undoable inp rs p next)
  | inr some_points ↦ elim (Bool-cases (inp.accepts p.calls c)) [
    | inl ok ↦
        rw (some_points, ok)
          (after_call rs.shadow_collection p.calls c _ (upsert-harmless _ _)
            (after_batch-undoable inp rs' (called p c) next))
    | inr bad ↦
        rw (some_points, bad)
          (after_call rs.shadow_collection p.calls c _ (upsert-harmless _ _)
            (discarded (fail-deleted inp (called p c) rs _)))
  ]
]
  where
    c : CollectionCall
    c = upsert_points rs.shadow_collection points

    rs' : ReshardStatus
    rs' = record rs { copied_points = add64 rs.copied_points (length points) }

abort-deleted :
    (inp : Inputs) (p : CollectionPass) (rs : ReshardStatus)
    → deleted (abort_reshard inp p rs).pass.calls ≡ deleted p.calls ++ (rs.shadow_collection ∷ [])
unfolding deleted abort_reshard
abort-deleted inp p rs =
    commit-deleted inp _ _
    ∙ harmless (p.calls ++ (delete_collection rs.shadow_collection ∷ []))
        (event Reason.reshard_aborted) refl
    ∙ deleted-append p.calls (delete_collection rs.shadow_collection ∷ [])

phase-undoable :
    (inp : Inputs) (p : CollectionPass) (cluster : QdrantCluster) (rs : ReshardStatus)
    (phase : ReshardPhase)
    → phase ≢ ReshardPhase.finalizing
    → IsReversible rs.shadow_collection p.calls (reshard_phase inp p cluster rs phase).pass.calls
unfolding reshard_phase prepare_shadow copy_step swap_alias
phase-undoable inp p cluster rs ReshardPhase.preparing h = prepare-IsUndoable inp rs p _
phase-undoable inp p cluster rs ReshardPhase.failed h = prepare-IsUndoable inp rs p _
phase-undoable inp p cluster rs ReshardPhase.copying h =
    elim (Bool-cases (cluster_move_active cluster)) [
      | inl busy ↦ rw busy (untouched refl)
      | inr free ↦ rw free (copy-undoable inp rs p _)
    ]
phase-undoable inp p cluster rs ReshardPhase.swapping h = swap-IsUndoable inp rs p _
phase-undoable inp p cluster rs ReshardPhase.finalizing h = absurd (h refl)
phase-undoable inp p cluster rs ReshardPhase.blocked h = untouched refl
phase-undoable inp p cluster rs (ReshardPhase.other t) h = untouched refl

-- Before the commit point, in every phase but Finalizing and whatever qdrant answers, a pass of the
-- workflow deletes no collection but the shadow, and that at most once.
pub reshard-IsReversible :
    (inp : Inputs) (p : CollectionPass) (cluster : QdrantCluster) (rs : ReshardStatus)
    → rs.phase ≢ ReshardPhase.finalizing
    → IsReversible rs.shadow_collection p.calls (reconcile_reshard inp p cluster rs).pass.calls
unfolding reconcile_reshard
reshard-IsReversible inp p cluster rs h = elim (Bool-cases (target_changed p.collection rs)) [
  | inl new ↦ rw new (discarded (abort-deleted inp p rs))
  | inr same ↦ rw same (phase-undoable inp p cluster rs rs.phase h)
]

-- A changed target discards the shadow in every phase, after the commit point too: in Finalizing, the
-- shadow is what the alias points at.
pub abort_discards_shadow :
    (inp : Inputs) (p : CollectionPass) (cluster : QdrantCluster) (rs : ReshardStatus)
    → target_changed p.collection rs ≡ true
    → deleted (reconcile_reshard inp p cluster rs).pass.calls
      ≡ deleted p.calls ++ (rs.shadow_collection ∷ [])
unfolding reconcile_reshard
abort_discards_shadow inp p cluster rs h = rw h (abort-deleted inp p rs)
