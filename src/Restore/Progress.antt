-- ===== src/Restore/Progress.antt =====
-- A restore goes through its sources one by one, in order, and loses none.
use qdrant_operator.Common.{
  ℕ, false, Option, none, some, List, [], ◌∷◌, ◌++◌, ◌≡◌, refl, sym, ◌∙◌, ap, arith, Bool-cases,
  List-cases, inl, inr, ◌⊎◌, append-nil_right,
}
use qdrant_operator.Api.Conditions.{Reason}
use qdrant_operator.Api.Cluster.{QdrantCluster}
use qdrant_operator.Api.Restore.{RestoreSource, QdrantRestoreStatus, QdrantRestore}
use qdrant_operator.Pass.{seconds, minutes}
use qdrant_operator.Restore.{
  RestoreCall, recover_snapshot, update_status, event, Lookup, found, not_found, failed, Inputs,
  RestorePass, degrade_restore, commit_restore, recover_call, restore_next, finish_restore,
  step_restore, is_fresh, drive_restore, restore_in, restore_once, start, reconcile,
}

-- The recoveries among a list of calls.
unfoldable pub recoveries : List RestoreCall → List RestoreCall
recoveries [] = []
recoveries (recover_snapshot peer coll location priority ∷ calls) =
    recover_snapshot peer coll location priority ∷ recoveries calls
recoveries (update_status s ∷ calls) = recoveries calls
recoveries (event r ∷ calls) = recoveries calls

recoveries-append :
    (xs ys : List RestoreCall) → recoveries (xs ++ ys) ≡ recoveries xs ++ recoveries ys
unfolding recoveries
recoveries-append [] ys = refl
recoveries-append (recover_snapshot peer coll location priority ∷ xs) ys =
    ap (◌∷◌ (recover_snapshot peer coll location priority)) (recoveries-append xs ys)
recoveries-append (update_status s ∷ xs) ys = recoveries-append xs ys
recoveries-append (event r ∷ xs) ys = recoveries-append xs ys

-- All sources of a status, the restored ones first.
abbrev pub sources_of : QdrantRestoreStatus → List RestoreSource
sources_of s = s.restored ++ s.pending

status-recoveries :
    (calls : List RestoreCall) (s : QdrantRestoreStatus)
    → recoveries (calls ++ (update_status s ∷ [])) ≡ recoveries calls
unfolding recoveries
status-recoveries calls s =
    recoveries-append calls (update_status s ∷ []) ∙ append-nil_right (recoveries calls)

event-recoveries :
    (calls : List RestoreCall) (r : Reason)
    → recoveries (calls ++ (event r ∷ [])) ≡ recoveries calls
unfolding recoveries
event-recoveries calls r =
    recoveries-append calls (event r ∷ []) ∙ append-nil_right (recoveries calls)

-- Committing changes neither the object nor the recoveries.
commit_restore-keeps :
    (inp : Inputs) (before : QdrantRestoreStatus) (p : RestorePass) (d : ℕ)
    → ((commit_restore inp before p d).pass.restore ≡ p.restore)
      × (recoveries (commit_restore inp before p d).pass.calls ≡ recoveries p.calls)
unfolding commit_restore
commit_restore-keeps inp before p d = elim (Bool-cases (inp.same_status before p.restore.status)) [
  | inl same ↦ rw same (refl, refl)
  | inr new ↦ elim (Bool-cases (inp.accepts (update_status p.restore.status))) [
    | inl ok ↦ rw (new, ok) (refl, status-recoveries p.calls p.restore.status)
    | inr bad ↦ rw (new, bad) (refl, status-recoveries p.calls p.restore.status)
  ]
]

pushed :
    (xs : List RestoreSource) (x : RestoreSource) (ys : List RestoreSource)
    → (xs ++ (x ∷ [])) ++ ys ≡ xs ++ (x ∷ ys)
pushed [] x ys = refl
pushed (z ∷ xs) x ys = ap (◌∷◌ z) (pushed xs x ys)

-- One recovery is issued, for the first source that is pending, and no source is lost or reordered.
pub restore_next-step :
    (inp : Inputs) (before : QdrantRestoreStatus) (p : RestorePass) (next : RestoreSource)
    (rest : List RestoreSource)
    → p.restore.status.pending ≡ next ∷ rest
    → (recoveries (restore_next inp before p next rest).pass.calls
        ≡ recoveries p.calls ++ (recover_call p.restore next ∷ []))
      × (sources_of (restore_next inp before p next rest).pass.restore.status
          ≡ sources_of p.restore.status)
unfolding restore_next degrade_restore recoveries
restore_next-step inp before p next rest e =
    elim (Bool-cases (inp.accepts (recover_call p.restore next))) [
      | inl ok ↦ rw ok (
        (commit_restore-keeps inp before _ (seconds 1)).1
            ∙ event-recoveries (p.calls ++ (recover_call p.restore next ∷ [])) Reason.restore_issued
            ∙ recoveries-append p.calls (recover_call p.restore next ∷ []),
        ap (λ (r : QdrantRestore). sources_of r.status)
              (commit_restore-keeps inp before _ (seconds 1)).0
            ∙ pushed p.restore.status.restored next rest
            ∙ ap (λ ps. p.restore.status.restored ++ ps) (sym e),
      )
      | inr bad ↦ rw bad (
        (commit_restore-keeps inp before _ (minutes 1)).1
            ∙ event-recoveries (p.calls ++ (recover_call p.restore next ∷ [])) Reason.restore_failed
            ∙ recoveries-append p.calls (recover_call p.restore next ∷ []),
        ap (λ (r : QdrantRestore). sources_of r.status)
            (commit_restore-keeps inp before _ (minutes 1)).0,
      )
    ]

-- A pass issues the recovery of the first pending source or none, and keeps all sources in order.
abbrev pub IsProgress : RestorePass → RestorePass → Type 0
IsProgress p q =
    ((recoveries q.calls ≡ recoveries p.calls)
      ⊎ ((next : RestoreSource) × (rest : List RestoreSource) × (p.restore.status.pending
            ≡ next ∷ rest)
          × (recoveries q.calls ≡ recoveries p.calls ++ (recover_call p.restore next ∷ []))))
    × (sources_of q.restore.status ≡ sources_of p.restore.status)

finish_restore-IsProgress :
    (inp : Inputs) (before : QdrantRestoreStatus) (p : RestorePass)
    → IsProgress p (finish_restore inp before p).pass
unfolding finish_restore
finish_restore-IsProgress inp before p = (
  inl ((commit_restore-keeps inp before _ 0).1 ∙ event-recoveries p.calls Reason.restore_completed),
  ap (λ (r : QdrantRestore). sources_of r.status) (commit_restore-keeps inp before _ 0).0,
)

module _ (inp : Inputs) (before : QdrantRestoreStatus) where
  step_next :
      (p : RestorePass) (next : RestoreSource) (rest : List RestoreSource)
      → p.restore.status.pending ≡ next ∷ rest
      → step_restore inp before p ≡ restore_next inp before p next rest
  unfolding step_restore
  step_next p next rest e = ground (arith, e)

  step_last :
      (p : RestorePass)
      → p.restore.status.pending ≡ []
      → step_restore inp before p ≡ finish_restore inp before p
  unfolding step_restore
  step_last p e = ground (arith, e)

  step_restore-IsProgress : (p : RestorePass) → IsProgress p (step_restore inp before p).pass
  step_restore-IsProgress p = elim (List-cases p.restore.status.pending) [
    | inl e ↦ rw (step_last p e) (finish_restore-IsProgress inp before p)
    | inr (next, rest, e) ↦ rw (step_next p next rest e) (
      inr (next, rest, e, (restore_next-step inp before p next rest e).0),
      (restore_next-step inp before p next rest e).1,
    )
  ]

degraded-IsProgress :
    (inp : Inputs) (before : QdrantRestoreStatus) (p : RestorePass) (r : Reason) (d : ℕ)
    → IsProgress p (commit_restore inp before (degrade_restore inp p r) d).pass
unfolding degrade_restore
degraded-IsProgress inp before p r d = (
  inl (commit_restore-keeps inp before _ d).1,
  ap (λ (x : QdrantRestore). sources_of x.status) (commit_restore-keeps inp before _ d).0,
)

found-IsProgress :
    (inp : Inputs) (before : QdrantRestoreStatus) (p : RestorePass) (cluster : QdrantCluster)
    → is_fresh p.restore.status ≡ false
    → IsProgress p (drive_restore inp before p cluster).pass
unfolding drive_restore
found-IsProgress inp before p cluster h = rw h (step_restore-IsProgress inp before p)

in-IsProgress :
    (inp : Inputs) (p : RestorePass) (l : Lookup)
    → is_fresh p.restore.status ≡ false
    → IsProgress p (restore_in inp p l).pass
unfolding restore_in
in-IsProgress inp p failed h = (inl refl, refl)
in-IsProgress inp p not_found h =
    degraded-IsProgress inp p.restore.status p Reason.cluster_not_found (seconds 30)
in-IsProgress inp p (found cluster) h = found-IsProgress inp p.restore.status p cluster h

once-IsProgress :
    (inp : Inputs) (p : RestorePass) (t : Option ℕ)
    → is_fresh p.restore.status ≡ false
    → IsProgress p (restore_once inp p t).pass
unfolding restore_once
once-IsProgress inp p none h = in-IsProgress inp p inp.cluster h
once-IsProgress inp p (some t) h = (inl refl, refl)

-- Once it has its sources, a restore makes progress in every pass: the recovery of the first pending
-- source is issued or nothing is, and the restored and the pending sources together stay the same list.
pub restore-IsProgress :
    (inp : Inputs) (rs : QdrantRestore)
    → is_fresh rs.status ≡ false
    → IsProgress (start rs) (reconcile inp rs).pass
unfolding reconcile
restore-IsProgress inp rs h = once-IsProgress inp (start rs) rs.status.completion_time h
