-- ===== src/Common/Order.antt =====
-- Comparisons into `Ordering`: their laws, their composition key by key, and the order by a test.
use Prim.Native.Nat.{ℕ, compare, Ordering}
use mathlib.Core.Path.{◌≡◌, refl}
use mathlib.Core.Bool.{Bool, true, false}
use mathlib.Core.List.{[], ◌∷◌}
use native.Mathlib.Omega.{arith}
use qdrant_operator.Common.Sort.{IsOrder}
use qdrant_operator.Common.Bytes.{Text, text_compare}

-- The first difference decides.
abbrev pub first : Ordering → Ordering → Ordering
first Ordering.eq o = o
first Ordering.lt o = Ordering.lt
first Ordering.gt o = Ordering.gt

abbrev pub flip : Ordering → Ordering
flip Ordering.eq = Ordering.eq
flip Ordering.lt = Ordering.gt
flip Ordering.gt = Ordering.lt

pub record IsCompare {ℓ} {A : Type ℓ} (c : A → A → Ordering) : Type ℓ where
  pub swap : (a b : A) → c b a ≡ flip (c a b)
  pub trans : (a b d : A) → c a b ≡ Ordering.lt → c b d ≡ Ordering.lt → c a d ≡ Ordering.lt
  pub congr : (a b d : A) → c a b ≡ Ordering.eq → c a d ≡ c b d

pub key_compare {ℓ} : {A : Type ℓ} (f : A → ℕ) → IsCompare (λ a b. compare (f a) (f b))
key_compare f = record {
  swap = λ a b. ground arith;
  trans = λ a b d h k. ground arith;
  congr = λ a b d h. ground arith;
}

pub key_compare_down {ℓ} : {A : Type ℓ} (f : A → ℕ) → IsCompare (λ a b. compare (f b) (f a))
key_compare_down f = record {
  swap = λ a b. ground arith;
  trans = λ a b d h k. ground arith;
  congr = λ a b d h. ground arith;
}

module _ {ℓ} {A : Type ℓ} {c d : A → A → Ordering} (p : IsCompare c) (q : IsCompare d) where
  lex_trans :
      (x y z : A)
      → first (c x y) (d x y) ≡ Ordering.lt
      → first (c y z) (d y z) ≡ Ordering.lt
      → first (c x z) (d x z) ≡ Ordering.lt
  lex_trans x y z h k = ground (
    arith,
    p.trans x y z,
    q.trans x y z,
    p.congr x y z,
    p.congr y z x,
    p.swap x y,
    p.swap y z,
    p.swap x z,
  )

  pub lex-IsCompare : IsCompare (λ a b. first (c a b) (d a b))
  lex-IsCompare = record {
    swap = λ x y. ground (arith, p.swap x y, q.swap x y);
    trans = lex_trans;
    congr = λ x y z h. ground (arith, p.congr x y z, q.congr x y z);
  }

module _ {ℓ} {A : Type ℓ} {c : A → A → Ordering} (p : IsCompare c) where
  pub compare-IsOrder :
      IsOrder (λ a b. elim (c a b) as (λ x. Bool) [ Ordering.gt ↦ false | _ ↦ true ])
  compare-IsOrder = record {
    total = λ x y h. ground (arith, p.swap x y);
    trans = λ x y z h k.
        ground
          (arith, p.trans x y z, p.congr x y z, p.congr y z x, p.swap x y, p.swap y z, p.swap x z);
  }

text_compare_swap : (s t : Text) → text_compare t s ≡ flip (text_compare s t)
unfolding text_compare
text_compare_swap [] [] = refl
text_compare_swap [] (b ∷ t) = refl
text_compare_swap (a ∷ s) [] = refl
text_compare_swap (a ∷ s) (b ∷ t) = ground (arith, text_compare_swap s t)

text_compare_trans :
    (s t u : Text)
    → text_compare s t ≡ Ordering.lt
    → text_compare t u ≡ Ordering.lt
    → text_compare s u ≡ Ordering.lt
unfolding text_compare
text_compare_trans [] t [] h k = ground (arith, text_compare_swap t [])
text_compare_trans [] t (c ∷ u) h k = refl
text_compare_trans (a ∷ s) [] u h k = ground arith
text_compare_trans (a ∷ s) (b ∷ t) [] h k = ground arith
text_compare_trans (a ∷ s) (b ∷ t) (c ∷ u) h k = ground (arith, text_compare_trans s t u)

pub text_compare_sound : (s t : Text) → text_compare s t ≡ Ordering.eq → s ≡ t
unfolding text_compare
text_compare_sound [] [] h = refl
text_compare_sound [] (b ∷ t) h = ground arith
text_compare_sound (a ∷ s) [] h = ground arith
text_compare_sound (a ∷ s) (b ∷ t) h = ground (arith, text_compare_sound s t)

pub text_compare_laws : IsCompare text_compare
text_compare_laws = record {
  swap = text_compare_swap;
  trans = text_compare_trans;
  congr = λ s t u h. ground (arith, text_compare_sound s t);
}
