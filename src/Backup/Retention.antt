-- ===== src/Backup/Retention.antt =====
-- Which snapshots are pruned, and which are kept.
use mathlib.Core.List.{Perm}
use mathlib.Core.List.Perm
use Prim.Native.Nat.{zero, suc}
use qdrant_operator.Common.{
  ℕ, ◌≤◌, ltb, leb, min, Text, true, ◌||◌, List, [], ◌∷◌, ◌++◌, ◌≡◌, refl, sym, ap, ◌∙◌, subst,
  Memᴰ, arith, length, length-sort, take, drop, sort, sort-perm, sort-IsSorted, IsSorted, IsOrder,
  text_compare, text_compare_laws, text_compare_sound, text_leb, text_ltb, IsCompare, lex-IsCompare,
  compare-IsOrder, All, All-mem, All-of_mem, Bool-cases, inl, inr, ◌⊎◌, append-nil_right,
}
use qdrant_operator.Qdrant.{SnapshotInfo}
use qdrant_operator.Backup.Plan.{names_of, newest_leb, newest_compare, prunable}

-- A snapshot is no newer than another: it was made earlier, or at the same time with a name that comes
-- no later.
abbrev pub IsNoNewer : SnapshotInfo → SnapshotInfo → Type 0
IsNoNewer g k =
    (text_ltb g.creation_time k.creation_time ≡ true)
    ⊎ ((g.creation_time ≡ k.creation_time) × (text_leb g.name k.name ≡ true))

-- The snapshots fall into those that are kept, as many as the retention or all there are, and those
-- whose names are given, none of them newer than any that is kept.
pub record IsPruning (snapshots : List SnapshotInfo) (keep_last : ℕ) (names : List Text)
    : Type 0 where
  pub kept : List SnapshotInfo
  pub gone : List SnapshotInfo
  pub whole : Perm (kept ++ gone) snapshots
  pub as_many : length kept ≡ min keep_last (length snapshots)
  pub named : names ≡ names_of gone
  pub newest : All (λ g. All (λ k. IsNoNewer g k) kept) gone

newest-IsCompare_laws : IsCompare newest_compare
newest-IsCompare_laws = lex-IsCompare (down (λ s. s.creation_time)) (down (λ s. s.name))
  where
    down : (f : SnapshotInfo → Text) → IsCompare (λ (a b : SnapshotInfo). text_compare (f b) (f a))
    down f = record {
      swap = λ a b. text_compare_laws.swap (f b) (f a);
      trans = λ a b d h k. text_compare_laws.trans (f d) (f b) (f a) k h;
      congr = λ a b d h. ap (λ t. text_compare (f d) t) (sym (text_compare_sound (f b) (f a) h));
    }

newest_leb-IsOrder : IsOrder newest_leb
newest_leb-IsOrder = compare-IsOrder newest-IsCompare_laws

leb-IsNoNewer : (k g : SnapshotInfo) → newest_leb k g ≡ true → IsNoNewer g k
leb-IsNoNewer k g h = elim (Bool-cases (text_ltb g.creation_time k.creation_time)) [
  | inl t ↦ inl t
  | inr t ↦ inr (
    text_compare_sound g.creation_time k.creation_time (ground (arith, t, h)),
    ground (arith, t, h),
  )
]

mem-drop {ℓ} : {A : Type ℓ} (n : ℕ) (xs : List A) {a : A} → Memᴰ a (drop n xs) → Memᴰ a xs
mem-drop zero xs m = m
mem-drop (suc n) [] m = m
mem-drop (suc n) (x ∷ xs) m = Memᴰ.tail (mem-drop n xs m)

append-take_drop {ℓ} : {A : Type ℓ} (n : ℕ) (xs : List A) → take n xs ++ drop n xs ≡ xs
append-take_drop zero xs = refl
append-take_drop (suc n) [] = refl
append-take_drop (suc n) (x ∷ xs) = ap (λ ys. x ∷ ys) (append-take_drop n xs)

length-take {ℓ} : {A : Type ℓ} (n : ℕ) (xs : List A) → length (take n xs) ≡ min n (length xs)
length-take zero xs = ground arith
length-take (suc n) [] = ground arith
length-take (suc n) (x ∷ xs) = ground (arith, length-take n xs)

-- What is taken of a sorted list comes before what is left.
taken_first :
    (n : ℕ) (xs : List SnapshotInfo) (g : SnapshotInfo)
    → IsSorted newest_leb xs
    → Memᴰ g (drop n xs)
    → All (λ k. IsNoNewer g k) (take n xs)
taken_first zero xs g h m = tt
taken_first (suc n) [] g h m = tt
taken_first (suc n) (x ∷ xs) g h m = (
  leb-IsNoNewer x g (All-mem (λ y. newest_leb x y ≡ true) xs h.0 (mem-drop n xs m)),
  taken_first n xs g h.1 m,
)

-- With a retention of at least one, pruning names the oldest snapshots and keeps as many of the newest
-- ones as the retention says, or all of a shorter list.
pub prunable-IsPruning :
    (snapshots : List SnapshotInfo) (keep_last : ℕ)
    → 1 ≤ keep_last
    → IsPruning snapshots keep_last (prunable snapshots keep_last)
unfolding prunable
prunable-IsPruning snapshots keep_last h =
    elim (Bool-cases (ltb keep_last 1 || leb (length snapshots) keep_last)) [
      | inl few ↦ rw few (record {
        kept = snapshots;
        gone = [];
        whole =
            subst (λ xs. Perm xs snapshots) (sym (append-nil_right snapshots))
              (Perm.refl snapshots);
        as_many = ground (arith, few);
        named = refl;
        newest = tt;
      })
      | inr more ↦ rw more (record {
        kept = take keep_last sorted;
        gone = drop keep_last sorted;
        whole =
            subst (λ xs. Perm xs snapshots) (sym (append-take_drop keep_last sorted))
              (sort-perm newest_leb snapshots);
        as_many =
            length-take keep_last sorted ∙ ap (min keep_last) (length-sort newest_leb snapshots);
        named = refl;
        newest = All-of_mem _ (drop keep_last sorted) λ g m.
            taken_first keep_last sorted g (sort-IsSorted newest_leb newest_leb-IsOrder snapshots)
              m;
      })
    ]
  where
    sorted : List SnapshotInfo
    sorted = sort newest_leb snapshots
