-- ===== src/Simulation/Pages.antt =====
-- The pages that `ScrollPoints` of the fake serves follow each other without gap or overlap.
use qdrant_operator.Common.{
  ℕ, zero, suc, ◌+◌, ◌-◌, ◌<◌, ◌≤◌, min, Text, false, none, some, List, [], ◌∷◌, ◌++◌, ◌≡◌, refl,
  sym, ap, ◌∙◌, arith, length, take, drop, is_empty, format_uint, length-drop,
}
use qdrant_operator.Fake.Points.{page_from}
use qdrant_operator.Simulation.Collections.{copy_batch}

module _ {ℓ} {A : Type ℓ} where
  take-drop : (n : ℕ) (xs : List A) → take n xs ++ drop n xs ≡ xs
  take-drop zero xs = refl
  take-drop (suc n) [] = refl
  take-drop (suc n) (x ∷ xs) = ap (◌∷◌ x) (take-drop n xs)

  drop_nil : (n : ℕ) → drop {A = A} n [] ≡ []
  drop_nil zero = refl
  drop_nil (suc n) = refl

  drop-drop : (i j : ℕ) (xs : List A) → drop j (drop i xs) ≡ drop (i + j) xs
  drop-drop zero j xs = ap (λ n. drop n xs) (omega arith)
  drop-drop (suc i) j [] = drop_nil j ∙ sym (drop_nil (suc i + j))
  drop-drop (suc i) j (x ∷ xs) = drop-drop i j xs ∙ ap (λ n. drop n (x ∷ xs)) (shift i j)
    where
      shift : (a b : ℕ) → suc (a + b) ≡ suc a + b
      shift a b = omega arith

  take_all : (n : ℕ) (xs : List A) → length xs ≤ n → take n xs ≡ xs
  take_all zero [] h = refl
  take_all zero (x ∷ xs) h = absurd (omega arith)
  take_all (suc n) [] h = refl
  take_all (suc n) (x ∷ xs) h = ap (◌∷◌ x) (take_all n xs (omega arith))

  pub drop_all : (n : ℕ) (xs : List A) → length xs ≤ n → drop n xs ≡ []
  drop_all zero [] h = refl
  drop_all zero (x ∷ xs) h = absurd (omega arith)
  drop_all (suc n) [] h = refl
  drop_all (suc n) (x ∷ xs) h = drop_all n xs (omega arith)

  length-take : (n : ℕ) (xs : List A) → n ≤ length xs → length (take n xs) ≡ n
  length-take zero xs h = refl
  length-take (suc n) [] h = absurd (omega arith)
  length-take (suc n) (x ∷ xs) h = ap suc (length-take n xs (omega arith))

  pub not_empty : (xs : List A) → 0 < length xs → is_empty xs ≡ false
  not_empty [] h = absurd (omega arith)
  not_empty (x ∷ xs) h = refl

-- The page that starts at i.
abbrev pub page : List Text → ℕ → List Text
page pts i = take (min (i + copy_batch) (length pts) - i) (drop i pts)

module _ (pts : List Text) (i : ℕ) where
  pub page-more :
      i + copy_batch < length pts
      → page_from pts i copy_batch ≡ (page pts i, some (format_uint (i + copy_batch)))
  unfolding page_from
  page-more h = ground (arith, h)

  pub page-last :
      i < length pts → length pts ≤ i + copy_batch → page_from pts i copy_batch ≡ (page pts i, none)
  unfolding page_from
  page-last h k = ground (arith, h, k)

  pub page-none : length pts ≤ i → page_from pts i copy_batch ≡ ([], none)
  unfolding page_from
  page-none h = ground (arith, h)

  pub page_then : i + copy_batch < length pts → page pts i ++ drop (i + copy_batch) pts ≡ drop i pts
  page_then h = rw (width, sym (drop-drop i copy_batch pts)) (take-drop copy_batch (drop i pts))
    where
      width : min (i + copy_batch) (length pts) - i ≡ copy_batch
      width = omega arith

  pub page_rest : length pts ≤ i + copy_batch → page pts i ≡ drop i pts
  page_rest h = take_all _ (drop i pts) (ground (arith, length-drop i pts))

  pub length-page_more : i + copy_batch < length pts → length (page pts i) ≡ copy_batch
  length-page_more h = length-take _ (drop i pts) (omega (arith, length-drop i pts)) ∙ omega arith
