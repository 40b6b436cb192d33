-- ===== src/Backup/Selection.antt =====
-- Which snapshots a backup takes for new.
use qdrant_operator.Common.{
  Text, Bool, true, false, not, Option, none, some, List, [], ◌∷◌, ◌≡◌, refl, sym, Memᴰ, arith,
  filter, sort, mem-filter, mem-filter_of, mem-sort, mem-of_sort, Bool-cases, List-cases, inl, inr,
  subst, text_leb, All, All-of_mem,
}
use qdrant_operator.Rebalance.Completeness.{not-mem-nil}
use qdrant_operator.Qdrant.{SnapshotInfo}
use qdrant_operator.Backup.Plan.{new_snapshot_name, is_known}

-- The snapshots with new names, by name.
fresh : List Text → List SnapshotInfo → List SnapshotInfo
fresh before now =
    sort (λ (a b : SnapshotInfo). text_leb a.name b.name)
      (filter (λ (s : SnapshotInfo). not (is_known before s.name)) now)

first_fresh :
    (before : List Text) (now : List SnapshotInfo) (s : SnapshotInfo) (rest : List SnapshotInfo)
    → fresh before now ≡ s ∷ rest
    → new_snapshot_name before now ≡ some s
unfolding new_snapshot_name fresh
first_fresh before now s rest e = ground (arith, e)

no_fresh :
    (before : List Text) (now : List SnapshotInfo)
    → fresh before now ≡ []
    → new_snapshot_name before now ≡ none
unfolding new_snapshot_name fresh
no_fresh before now e = ground (arith, e)

-- What an answer of the recognition means.
abbrev pub IsRecognised : List Text → List SnapshotInfo → Option SnapshotInfo → Type 0
IsRecognised before now none = All (λ (s : SnapshotInfo). is_known before s.name ≡ true) now
IsRecognised before now (some s) = Memᴰ s now × (is_known before s.name ≡ false)

-- The snapshot taken for the one that was issued is listed, and its name was not known before; where
-- none is taken, every listed name was known.
pub new_snapshot-IsRecognised :
    (before : List Text) (now : List SnapshotInfo)
    → IsRecognised before now (new_snapshot_name before now)
new_snapshot-IsRecognised before now = elim (List-cases (fresh before now)) [
  | inl e ↦ rw (no_fresh before now e) (
      All-of_mem _ now λ s m. elim (Bool-cases (is_known before s.name)) [
        | inl known ↦ known
        | inr new ↦ absurd (not-mem-nil _ e (listed s m new))
      ])
  | inr (s, rest, e) ↦ rw (first_fresh before now s rest e) (
      let m = mem-filter test now (found s (subst (λ xs. Memᴰ s xs) (sym e) (Memᴰ.head refl))) in
      (m.0, ground (arith, m.1)))
]
  where
    test : SnapshotInfo → Bool
    test s = not (is_known before s.name)

    listed :
        (s : SnapshotInfo) → Memᴰ s now → is_known before s.name ≡ false → Memᴰ s (fresh before now)
    listed s m new =
        unfold fresh in
        mem-sort (λ (a b : SnapshotInfo). text_leb a.name b.name) (filter test now)
          (mem-filter_of test now m (ground (arith, new)))

    found : (s : SnapshotInfo) → Memᴰ s (fresh before now) → Memᴰ s (filter test now)
    found s m =
        unfold fresh in
        mem-of_sort (λ (a b : SnapshotInfo). text_leb a.name b.name) (filter test now) m
