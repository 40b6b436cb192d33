-- ===== src/Collection/Disposal.antt =====
-- Which collections a pass of the resharding workflow deletes.
use qdrant_operator.Common.{
  ℕ, Text, List, [], ◌∷◌, ◌++◌, ◌≡◌, refl, ◌∙◌, ap, Bool-cases, inl, inr, append-nil_right,
}
use qdrant_operator.Qdrant.{CollectionSpec, AliasAction}
use qdrant_operator.Api.Conditions.{Reason}
use qdrant_operator.Api.Collection.{ReshardStatus}
use qdrant_operator.Collection.Pass.{
  CollectionCall, create_collection, delete_collection, update_aliases, upsert_points,
  update_status, update_object, event, Inputs, CollectionPass, commit, set_ready, set_degraded,
}
use qdrant_operator.Collection.Reshard.{fail_reshard}

-- The collections that a list of calls deletes, in order.
unfoldable pub deleted : List CollectionCall → List Text
deleted [] = []
deleted (delete_collection name ∷ calls) = name ∷ deleted calls
deleted (create_collection name spec ∷ calls) = deleted calls
deleted (update_aliases actions ∷ calls) = deleted calls
deleted (upsert_points name points ∷ calls) = deleted calls
deleted (update_status s ∷ calls) = deleted calls
deleted (update_object c ∷ calls) = deleted calls
deleted (event r ∷ calls) = deleted calls

pub deleted-append : (xs ys : List CollectionCall) → deleted (xs ++ ys) ≡ deleted xs ++ deleted ys
unfolding deleted
deleted-append [] ys = refl
deleted-append (delete_collection name ∷ xs) ys = ap (◌∷◌ name) (deleted-append xs ys)
deleted-append (create_collection name spec ∷ xs) ys = deleted-append xs ys
deleted-append (update_aliases actions ∷ xs) ys = deleted-append xs ys
deleted-append (upsert_points name points ∷ xs) ys = deleted-append xs ys
deleted-append (update_status s ∷ xs) ys = deleted-append xs ys
deleted-append (update_object c ∷ xs) ys = deleted-append xs ys
deleted-append (event r ∷ xs) ys = deleted-append xs ys

-- A call that deletes nothing.
pub harmless :
    (calls : List CollectionCall) (c : CollectionCall)
    → deleted (c ∷ []) ≡ []
    → deleted (calls ++ (c ∷ [])) ≡ deleted calls
harmless calls c e =
    deleted-append calls (c ∷ [])
    ∙ ap (λ ds. deleted calls ++ ds) e
    ∙ append-nil_right (deleted calls)

pub commit-deleted :
    (inp : Inputs) (p : CollectionPass) (d : ℕ)
    → deleted (commit inp p d).pass.calls ≡ deleted p.calls
unfolding commit deleted
commit-deleted inp p d =
    elim (Bool-cases (inp.accepts p.calls (update_status p.collection.status))) [
      | inl ok ↦ rw ok (harmless p.calls (update_status p.collection.status) refl)
      | inr bad ↦ rw bad (harmless p.calls (update_status p.collection.status) refl)
    ]

pub fail-deleted :
    (inp : Inputs) (p : CollectionPass) (rs : ReshardStatus) (reason : Reason)
    → deleted (fail_reshard inp p rs reason).pass.calls
      ≡ deleted p.calls ++ (rs.shadow_collection ∷ [])
unfolding fail_reshard deleted
fail-deleted inp p rs reason =
    commit-deleted inp _ _
    ∙ harmless (p.calls ++ (delete_collection rs.shadow_collection ∷ [])) (event reason) refl
    ∙ deleted-append p.calls (delete_collection rs.shadow_collection ∷ [])

pub degraded-deleted :
    (inp : Inputs) (p : CollectionPass) (reason : Reason)
    → deleted (set_degraded inp p reason).calls ≡ deleted p.calls
unfolding set_degraded deleted
degraded-deleted inp p reason =
    harmless (p.calls ++ (event reason ∷ [])) _ refl ∙ harmless p.calls (event reason) refl

pub ready-deleted :
    (inp : Inputs) (p : CollectionPass) (points : ℕ)
    → deleted (set_ready inp p points).pass.calls ≡ deleted p.calls
unfolding set_ready
ready-deleted inp p points = commit-deleted inp _ _

-- Nothing is deleted, or the shadow alone.
pub data IsReversible (shadow : Text) (before after : List CollectionCall) : Type 0 where
  untouched : deleted after ≡ deleted before → IsReversible shadow before after
  discarded : deleted after ≡ deleted before ++ (shadow ∷ []) → IsReversible shadow before after

pub create-harmless :
    (name : Text) (spec : CollectionSpec) → deleted (create_collection name spec ∷ []) ≡ []
unfolding deleted
create-harmless name spec = refl

pub aliases-harmless : (actions : List AliasAction) → deleted (update_aliases actions ∷ []) ≡ []
unfolding deleted
aliases-harmless actions = refl

pub upsert-harmless :
    (name : Text) (points : List Text) → deleted (upsert_points name points ∷ []) ≡ []
unfolding deleted
upsert-harmless name points = refl

pub event-harmless : (r : Reason) → deleted (event r ∷ []) ≡ []
unfolding deleted
event-harmless r = refl
