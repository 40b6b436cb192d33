-- ===== src/Common/Dict.antt =====
-- Go maps as association lists: a written key stands once more in its old place or at the end, and
-- a key has at most one entry. Proofs elsewhere go by the laws.
use Prim.Native.Nat.{ℕ}
use mathlib.Core.Path.{◌≡◌, refl, sym, ap, ◌∙◌}
use mathlib.Core.Bool.{Bool, true, false, ◌&&◌}
use mathlib.Core.Option.{Option, none, some}
use mathlib.Core.Logic.{inl, inr}
use mathlib.Core.List.{List, [], ◌∷◌, map}
use native.Mathlib.Omega.{arith}
use qdrant_operator.Common.Tests.{◌==◌, ==_iff, if◌then◌else◌, Bool-cases}
use qdrant_operator.Common.Bytes.{Text, text_eq, text_eq_refl, text_eq_sound}

-- A type whose equality is a test.
pub record Key (K : Type 0) : Type 0 where
  pub same : K → K → Bool
  pub same_refl : (k : K) → same k k ≡ true
  pub same_sound : (j k : K) → same j k ≡ true → j ≡ k

instance abbrev pub text_key : Key Text
text_key = record { same = text_eq; same_refl = text_eq_refl; same_sound = text_eq_sound }

instance abbrev pub number_key : Key ℕ
number_key = record {
  same = ◌==◌;
  same_refl = λ k. (==_iff k k).1 refl;
  same_sound = λ j k. (==_iff j k).0;
}

-- `[2]uint64`
instance abbrev pub pair_key : Key (ℕ × ℕ)
pair_key = record {
  same = λ j k. (j.0 == k.0) && (j.1 == k.1);
  same_refl = λ k. ground (arith, ==_iff k.0 k.0, ==_iff k.1 k.1);
  same_sound = λ j k h. pair_sound j.0 j.1 k.0 k.1 h;
}
  where
    pair_sound : (a b c d : ℕ) → (a == c && b == d) ≡ true → ◌≡◌ {A = ℕ × ℕ} (a, b) (c, d)
    pair_sound a b c d h = ground arith

abbrev pub Dict {ℓ} : Type 0 → Type ℓ → Type ℓ
Dict K V = List (K × V)

module _ {ℓ} {K : Type 0} {V : Type ℓ} ⦃e : Key K⦄ where
  -- `v, ok := m[k]`
  unfoldable pub lookup : K → Dict K V → Option V
  lookup k [] = none
  lookup k ((j, v) ∷ m) = if e.same j k then some v else lookup k m

  -- `m[k] = v`
  unfoldable pub put : K → V → Dict K V → Dict K V
  put k v [] = (k, v) ∷ []
  put k v ((j, w) ∷ m) = if e.same j k then (k, v) ∷ m else (j, w) ∷ put k v m

  -- `delete(m, k)`
  unfoldable pub remove : K → Dict K V → Dict K V
  remove k [] = []
  remove k ((j, w) ∷ m) = let rest = remove k m in if e.same j k then rest else (j, w) ∷ rest

  unfoldable pub keys : Dict K V → List K
  keys m = map (λ e. e.0) m

  -- `m[k]`, which is the zero value where the key is missing.
  abbrev pub lookup_or : V → K → Dict K V → V
  lookup_or z k m = elim (lookup k m) [ none ↦ z | some v ↦ v ]

  abbrev pub has : K → Dict K V → Bool
  has k m = elim (lookup k m) [ none ↦ false | some v ↦ true ]

  pub lookup-put_same : (k : K) (v : V) (m : Dict K V) → lookup k (put k v m) ≡ some v
  unfolding lookup put
  lookup-put_same k v [] = rw (e.same_refl k) refl
  lookup-put_same k v ((j, w) ∷ m) = elim (Bool-cases (e.same j k)) [
    | inl t ↦ rw (t, e.same_refl k) refl
    | inr t ↦ rw (t, t) (lookup-put_same k v m)
  ]

  pub lookup-put_other :
      (j k : K) (v : V) (m : Dict K V) → e.same j k ≡ false → lookup k (put j v m) ≡ lookup k m
  unfolding lookup put
  lookup-put_other j k v [] h = rw h refl
  lookup-put_other j k v ((i, w) ∷ m) h = elim (Bool-cases (e.same i j)) [
    | inl t ↦ rw (t, h, ap (λ x. e.same x k) (e.same_sound i j t) ∙ h) refl
    | inr t ↦ rw (t, lookup-put_other j k v m h) refl
  ]

  pub lookup-remove_same : (k : K) (m : Dict K V) → lookup k (remove k m) ≡ none
  unfolding lookup remove
  lookup-remove_same k [] = refl
  lookup-remove_same k ((j, w) ∷ m) = elim (Bool-cases (e.same j k)) [
    | inl t ↦ rw t (lookup-remove_same k m)
    | inr t ↦ rw (t, t) (lookup-remove_same k m)
  ]

  pub lookup-remove_other :
      (j k : K) (m : Dict K V) → e.same j k ≡ false → lookup k (remove j m) ≡ lookup k m
  unfolding lookup remove
  lookup-remove_other j k [] h = refl
  lookup-remove_other j k ((i, w) ∷ m) h = elim (Bool-cases (e.same i j)) [
    | inl t ↦ rw (t, ap (λ x. e.same x k) (e.same_sound i j t) ∙ h) (lookup-remove_other j k m h)
    | inr t ↦ rw (t, lookup-remove_other j k m h) refl
  ]

  -- The laws in one equation each.
  pub lookup-put :
      (j k : K) (v : V) (m : Dict K V)
      → lookup k (put j v m) ≡ (if e.same j k then some v else lookup k m)
  lookup-put j k v m = elim (Bool-cases (e.same j k)) [
    | inl t ↦
        rw t (ap (λ x. lookup x (put j v m)) (sym (e.same_sound j k t)) ∙ lookup-put_same j v m)
    | inr t ↦ rw t (lookup-put_other j k v m t)
  ]

  pub lookup-remove :
      (j k : K) (m : Dict K V) → lookup k (remove j m) ≡ (if e.same j k then none else lookup k m)
  lookup-remove j k m = elim (Bool-cases (e.same j k)) [
    | inl t ↦
        rw t (ap (λ x. lookup x (remove j m)) (sym (e.same_sound j k t)) ∙ lookup-remove_same j m)
    | inr t ↦ rw t (lookup-remove_other j k m t)
  ]
