-- ===== src/NodeFailure/Restraint.antt =====
-- What the deletion of stuck pods may do to a cluster.
use qdrant_operator.Common.{
  ◌⊎◌, Option, none, Option-cases, ℕ, ◌-◌, ◌≤◌, ltb, Text, true, false, some, List, [], ◌∷◌, ◌≡◌,
  refl, Memᴰ, arith, is_empty, Bool-cases, inl, inr, subst, sym, ◌∙◌,
}
use qdrant_operator.Pass.{minutes}
use qdrant_operator.NodeFailure.{
  Pod, NodeLookup, found, not_found, failed, ready_since, Deletion, node_down, is_stuck,
  delete_first, reconcile_stuck_pods,
}

-- A node that is gone, for however long, or whose first Ready condition has not been true for six
-- minutes.
abbrev pub IsDown : NodeLookup → ℕ → Type 0
IsDown (found cs) now = ((ready_since cs).0 ≡ true) × (minutes 6 ≤ now - (ready_since cs).1)
IsDown not_found now = Unit
IsDown failed now = ⊥

IsDown-facts :
    (l : NodeLookup) (now : ℕ)
    → (node_down l).0 ≡ true
    → minutes 6 ≤ now - (node_down l).1
    → IsDown l now
unfolding node_down
IsDown-facts (found cs) now d h = (d, h)
IsDown-facts not_found now d h = tt
IsDown-facts failed now d h = ground (arith, d)

-- The one pod of a list that a pass tries to delete, and why.
abbrev pub IsStuckPod : (Text → NodeLookup) → ℕ → List Pod → Pod → Type 0
IsStuckPod nodes now pods pod =
    Memᴰ pod pods × (is_empty pod.node_name ≡ false) × IsDown (nodes pod.node_name) now

stuck_facts :
    (nodes : Text → NodeLookup) (now : ℕ) (pod : Pod)
    → is_stuck nodes now pod ≡ true
    → (is_empty pod.node_name ≡ false)
      × ((node_down (nodes pod.node_name)).0 ≡ true)
      × (minutes 6 ≤ now - (node_down (nodes pod.node_name)).1)
unfolding is_stuck
stuck_facts nodes now pod h = ground (arith, h)

tried_first :
    (nodes : Text → NodeLookup) (now : ℕ) (delete : Pod → Deletion) (x : Pod) (pods : List Pod)
    → is_stuck nodes now x ≡ true
    → (delete_first nodes now delete (x ∷ pods)).1 ≡ some x
unfolding delete_first
tried_first nodes now delete x pods s = ground (arith, s)

skipped_first :
    (nodes : Text → NodeLookup) (now : ℕ) (delete : Pod → Deletion) (x : Pod) (pods : List Pod)
    → is_stuck nodes now x ≡ false
    → delete_first nodes now delete (x ∷ pods) ≡ delete_first nodes now delete pods
unfolding delete_first
skipped_first nodes now delete x pods s = rw s

some_same : {x y : Pod} → some x ≡ some y → x ≡ y
some_same e = cc

delete_first-IsStuckPod :
    (nodes : Text → NodeLookup) (now : ℕ) (delete : Pod → Deletion) (pods : List Pod) (pod : Pod)
    → (delete_first nodes now delete pods).1 ≡ some pod
    → IsStuckPod nodes now pods pod
unfolding delete_first
delete_first-IsStuckPod nodes now delete [] pod e = ground (arith, e)
delete_first-IsStuckPod nodes now delete (x ∷ pods) pod e =
    elim (Bool-cases (is_stuck nodes now x)) [
      | inl s ↦
          subst (IsStuckPod nodes now (x ∷ pods))
            (some_same (sym (tried_first nodes now delete x pods s) ∙ e))
            (
              Memᴰ.head refl,
              (stuck_facts nodes now x s).0,
              IsDown-facts (nodes x.node_name) now (stuck_facts nodes now x s).1
                  (stuck_facts nodes now x s).2,
            )
      | inr s ↦
          let later =
            delete_first-IsStuckPod nodes now delete pods pod
              (subst (λ r. r.1 ≡ some pod) (skipped_first nodes now delete x pods s) e) in
          (Memᴰ.tail later.0, later.1, later.2)
    ]

at_most_one :
    (nodes : Text → NodeLookup) (now : ℕ) (delete : Pod → Deletion) (pods : List Pod)
    → (delete_first nodes now delete pods).0 ≤ 1
unfolding delete_first
at_most_one nodes now delete [] = ground arith
at_most_one nodes now delete (x ∷ pods) = ground (arith, at_most_one nodes now delete pods)

none_tried :
    (nodes : Text → NodeLookup) (now : ℕ) (delete : Pod → Deletion) (pods : List Pod)
    → (delete_first nodes now delete pods).1 ≡ none
    → (delete_first nodes now delete pods).0 ≡ 0
unfolding delete_first
none_tried nodes now delete [] e = refl
none_tried nodes now delete (x ∷ pods) e = ground (arith, none_tried nodes now delete pods)

-- A number of deleted pods and the pod that was tried: none at all, or one that is stuck, in a cluster
-- of at least two replicas.
abbrev pub IsRestrained : ℕ → (Text → NodeLookup) → ℕ → List Pod → ℕ × Option Pod → Type 0
IsRestrained replicas nodes now pods r =
    ((r.0 ≡ 0) × (r.1 ≡ none))
    ⊎ ((pod : Pod) × (r.1 ≡ some pod) × (r.0 ≤ 1) × (2 ≤ replicas) × IsStuckPod nodes now pods pod)

restrained :
    (replicas : ℕ) (pods : List Pod) (nodes : Text → NodeLookup) (now : ℕ) (delete : Pod → Deletion)
    → 2 ≤ replicas
    → IsRestrained replicas nodes now pods (delete_first nodes now delete pods)
restrained replicas pods nodes now delete enough =
    elim (Option-cases (delete_first nodes now delete pods).1) [
      | inl e ↦ inl (none_tried nodes now delete pods e, e)
      | inr (pod, e) ↦ inr (
        pod,
        e,
        at_most_one nodes now delete pods,
        enough,
        delete_first-IsStuckPod nodes now delete pods pod e,
      )
    ]

-- A pass tries to delete no pod, or one: a listed pod that is scheduled to a node which is gone, or
-- whose first Ready condition has not been true for at least six minutes; and then the cluster has two
-- replicas or more.
pub one_stuck_pod :
    (replicas : ℕ) (pods : List Pod) (nodes : Text → NodeLookup) (now : ℕ) (delete : Pod → Deletion)
    → IsRestrained replicas nodes now pods
        (reconcile_stuck_pods replicas (some pods) nodes now delete)
unfolding reconcile_stuck_pods
one_stuck_pod replicas pods nodes now delete = elim (Bool-cases (ltb replicas 2)) [
  | inl few ↦ rw few (inl (refl, refl))
  | inr enough ↦ rw enough (restrained replicas pods nodes now delete (ground (arith, enough)))
]
