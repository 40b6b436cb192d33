-- ===== src/Common/Sort.antt =====
-- Sorting by a Boolean order, as `slices.Sort` and `slices.SortFunc` do up to the method.
use Prim.Native.Nat.{suc}
use mathlib.Core.Path.{◌≡◌, refl, sym, ap, ◌∙◌}
use mathlib.Core.Bool.{Bool, true, false}
use mathlib.Core.List.{List, [], ◌∷◌, Perm, Permᴰ, Memᴰ}
use mathlib.Core.List.Perm
use mathlib.Core.Logic.{inl, inr}
use native.Mathlib.Omega.{arith}
use qdrant_operator.Common.Tests.{if◌then◌else◌, Bool-cases}
use qdrant_operator.Common.Lists.{All, All-map, All-mem, All-of_mem, length}

-- The laws of an order given by a test; `le a b` is "a comes no later than b".
pub record IsOrder {ℓ} {A : Type ℓ} (le : A → A → Bool) : Type ℓ where
  pub total : (a b : A) → le a b ≡ false → le b a ≡ true
  pub trans : (a b c : A) → le a b ≡ true → le b c ≡ true → le a c ≡ true

module _ {ℓ} {A : Type ℓ} (le : A → A → Bool) where
  pub insert : A → List A → List A
  insert a [] = a ∷ []
  insert a (x ∷ xs) = if le a x then a ∷ x ∷ xs else x ∷ insert a xs

  unfoldable pub sort : List A → List A
  unfolding insert
  sort [] = []
  sort (x ∷ xs) = insert x (sort xs)

  -- Every item comes no later than those behind it.
  abbrev pub IsSorted : List A → Type ℓ
  IsSorted [] = Unit
  IsSorted (x ∷ xs) = All (λ y. le x y ≡ true) xs × IsSorted xs

  -- Items that come both before and after each other are the same.
  abbrev pub IsStrict : List A → Type ℓ
  IsStrict xs = (a b : A) → Memᴰ a xs → Memᴰ b xs → le a b ≡ true → le b a ≡ true → a ≡ b

module _ {ℓ κ} {A : Type ℓ} (le : A → A → Bool) (P : A → Type κ) where
  insert-All : (a : A) (xs : List A) → P a → All P xs → All P (insert le a xs)
  unfolding insert
  insert-All a [] p h = (p, tt)
  insert-All a (x ∷ xs) p h = elim (Bool-cases (le a x)) [
    | inl e ↦ rw e (p, h)
    | inr e ↦ rw e (h.0, insert-All a xs p h.1)
  ]

  pub sort-All : (xs : List A) → All P xs → All P (sort le xs)
  unfolding sort
  sort-All [] h = tt
  sort-All (x ∷ xs) h = insert-All x (sort le xs) h.0 (sort-All xs h.1)

module _ {ℓ} {A : Type ℓ} (le : A → A → Bool) where
  insert-perm : (a : A) (xs : List A) → Perm (insert le a xs) (a ∷ xs)
  unfolding insert
  insert-perm a [] = Perm.refl (a ∷ [])
  insert-perm a (x ∷ xs) = elim (Bool-cases (le a x)) [
    | inl e ↦ rw e (Perm.refl (a ∷ x ∷ xs))
    | inr e ↦ rw e (Perm.trans (Perm.cons x (insert-perm a xs)) (Perm.swap a x xs))
  ]

  pub sort-perm : (xs : List A) → Perm (sort le xs) xs
  unfolding sort
  sort-perm [] = Perm.refl []
  sort-perm (x ∷ xs) = Perm.trans (insert-perm x (sort le xs)) (Perm.cons x (sort-perm xs))

  length-insert : (a : A) (xs : List A) → length (insert le a xs) ≡ suc (length xs)
  unfolding insert
  length-insert a [] = refl
  length-insert a (x ∷ xs) = ground (arith, length-insert a xs)

  pub length-sort : (xs : List A) → length (sort le xs) ≡ length xs
  unfolding sort
  length-sort [] = refl
  length-sort (x ∷ xs) = omega (arith, length-insert x (sort le xs), length-sort xs)

  pub mem-of_sort : (xs : List A) {a : A} → Memᴰ a (sort le xs) → Memᴰ a xs
  mem-of_sort xs m =
      All-mem (λ b. Memᴰ b xs) (sort le xs)
        (sort-All le (λ b. Memᴰ b xs) xs (All-of_mem (λ b. Memᴰ b xs) xs (λ b h. h))) m

  pub sort-empty : (xs : List A) → sort le xs ≡ [] → xs ≡ []
  sort-empty [] e = refl
  sort-empty (x ∷ xs) e = absurd (omega (arith, length-sort (x ∷ xs), ap length e))

  mem-insert_self : (a b : A) (xs : List A) → b ≡ a → Memᴰ b (insert le a xs)
  unfolding insert
  mem-insert_self a b [] e = Memᴰ.head e
  mem-insert_self a b (x ∷ xs) e = elim (Bool-cases (le a x)) [
    | inl t ↦ rw t (Memᴰ.head e)
    | inr t ↦ rw t (Memᴰ.tail (mem-insert_self a b xs e))
  ]

  mem-insert_tail : (a b : A) (xs : List A) → Memᴰ b xs → Memᴰ b (insert le a xs)
  unfolding insert
  mem-insert_tail a b [] m = elim m [ ]
  mem-insert_tail a b (x ∷ xs) (Memᴰ.head e) = elim (Bool-cases (le a x)) [
    | inl t ↦ rw t (Memᴰ.tail (Memᴰ.head e))
    | inr t ↦ rw t (Memᴰ.head e)
  ]
  mem-insert_tail a b (x ∷ xs) (Memᴰ.tail m) = elim (Bool-cases (le a x)) [
    | inl t ↦ rw t (Memᴰ.tail (Memᴰ.tail m))
    | inr t ↦ rw t (Memᴰ.tail (mem-insert_tail a b xs m))
  ]

  pub mem-sort : (xs : List A) {a : A} → Memᴰ a xs → Memᴰ a (sort le xs)
  unfolding sort
  mem-sort [] m = m
  mem-sort (x ∷ xs) {a} (Memᴰ.head e) = mem-insert_self x a (sort le xs) e
  mem-sort (x ∷ xs) {a} (Memᴰ.tail m) = mem-insert_tail x a (sort le xs) (mem-sort xs m)

-- A member of a permuted list is one of the list.
mem-permuted {ℓ} : {A : Type ℓ} {xs ys : List A} {a : A} → Permᴰ xs ys → Memᴰ a ys → Memᴰ a xs
mem-permuted Permᴰ.nil m = elim m [ ]
mem-permuted (Permᴰ.cons e d) (Memᴰ.head p) = Memᴰ.head (p ∙ sym e)
mem-permuted (Permᴰ.cons e d) (Memᴰ.tail m) = Memᴰ.tail (mem-permuted d m)
mem-permuted (Permᴰ.swap e d) (Memᴰ.head p) = Memᴰ.tail (Memᴰ.head (p ∙ sym d))
mem-permuted (Permᴰ.swap e d) (Memᴰ.tail (Memᴰ.head p)) = Memᴰ.head (p ∙ sym e)
mem-permuted (Permᴰ.swap e d) (Memᴰ.tail (Memᴰ.tail m)) = Memᴰ.tail (Memᴰ.tail m)
mem-permuted (Permᴰ.trans d k) m = mem-permuted d (mem-permuted k m)

module _ {ℓ} {A : Type ℓ} (le : A → A → Bool) (order : IsOrder le) where
  insert-IsSorted : (a : A) (xs : List A) → IsSorted le xs → IsSorted le (insert le a xs)
  unfolding insert
  insert-IsSorted a [] h = (tt, tt)
  insert-IsSorted a (x ∷ xs) h = elim (Bool-cases (le a x)) [
    | inl e ↦ rw e ((e, All-map xs (λ y p. order.trans a x y e p) h.0), h)
    | inr e ↦
        rw e (
          insert-All le (λ y. le x y ≡ true) a xs (order.total a x e) h.0,
          insert-IsSorted a xs h.1,
        )
  ]

  pub sort-IsSorted : (xs : List A) → IsSorted le (sort le xs)
  unfolding sort
  sort-IsSorted [] = tt
  sort-IsSorted (x ∷ xs) = insert-IsSorted x (sort le xs) (sort-IsSorted xs)

  -- Of two items that no more than one order fits, either may be inserted first.
  insert-insert :
      (a b : A) (xs : List A)
      → (le a b ≡ true → le b a ≡ true → a ≡ b)
      → insert le a (insert le b xs) ≡ insert le b (insert le a xs)
  unfolding insert
  insert-insert a b [] same = elim (Bool-cases (le a b)) [
    | inl e ↦ elim (Bool-cases (le b a)) [
      | inl d ↦ rw (e, d, same e d) refl
      | inr d ↦ rw (e, d) refl
    ]
    | inr e ↦ rw (e, order.total a b e) refl
  ]
  insert-insert a b (x ∷ xs) same = elim (Bool-cases (le a x)) [
    | inl p ↦ elim (Bool-cases (le b x)) [
      | inl q ↦ elim (Bool-cases (le a b)) [
        | inl e ↦ elim (Bool-cases (le b a)) [
          | inl d ↦
              ap (λ y. insert le a (insert le y (x ∷ xs))) (sym (same e d))
              ∙ ap (λ y. insert le y (insert le a (x ∷ xs))) (same e d)
          | inr d ↦ rw (p, q, e, d) refl
        ]
        | inr e ↦ rw (p, q, e, order.total a b e, p) refl
      ]
      | inr q ↦ elim (Bool-cases (le b a)) [
        | inl d ↦ absurd (cc (order.trans b a x d p, q))
        | inr d ↦ rw (p, q, p, d) refl
      ]
    ]
    | inr p ↦ elim (Bool-cases (le b x)) [
      | inl q ↦ elim (Bool-cases (le a b)) [
        | inl e ↦ absurd (cc (order.trans a b x e q, p))
        | inr e ↦ rw (p, q, e, p) refl
      ]
      | inr q ↦ rw (p, q, p) (ap (λ ys. x ∷ ys) (insert-insert a b xs same))
    ]
  ]

  -- A sorted list stays as it is.
  pub sort-sorted : (xs : List A) → IsSorted le xs → sort le xs ≡ xs
  unfolding sort insert
  sort-sorted [] h = refl
  sort-sorted (x ∷ []) h = refl
  sort-sorted (x ∷ y ∷ ys) h = ap (insert le x) (sort-sorted (y ∷ ys) h.1) ∙ head_stays
    where
      head_stays : insert le x (y ∷ ys) ≡ x ∷ y ∷ ys
      head_stays = rw h.0.0 refl

  -- Both orders of a strict list sort to the same one.
  pub sort-permuted : {xs ys : List A} → Permᴰ xs ys → IsStrict le xs → sort le xs ≡ sort le ys
  unfolding sort
  sort-permuted Permᴰ.nil h = refl
  sort-permuted (Permᴰ.cons {b = b} {l₁ = l₁} e d) h =
      ap (λ x. insert le x (sort le l₁)) e
      ∙ ap (insert le b) (sort-permuted d (λ a c m n. h a c (Memᴰ.tail m) (Memᴰ.tail n)))
  sort-permuted (Permᴰ.swap {a = a} {b = b} {a' = a'} {l = l} e d) h =
      insert-insert a b (sort le l) (h a b (Memᴰ.head refl) (Memᴰ.tail (Memᴰ.head refl)))
      ∙ ap (λ x. insert le x (insert le a (sort le l))) d
      ∙ ap (λ x. insert le a' (insert le x (sort le l))) e
  sort-permuted (Permᴰ.trans d k) h =
      sort-permuted d h ∙ sort-permuted k (λ a c m n. h a c (mem-permuted d m) (mem-permuted d n))
