-- ===== src/Backup/Plan.antt =====
-- internal/controller/backup.go: the pure part of a backup. The cron parser is not part of the
-- repository: `cron expression t` is the parameter for its next time after `t`, none for an expression
-- that does not parse.
use qdrant_operator.Common.{
  ℕ, suc, zero, ltb, leb, Ordering, Text, Bool, true, false, not, ◌&&◌, ◌||◌, Option, none, some,
  List, [], ◌∷◌, map, length, any, filter, drop, flat_map, is_empty, if◌then◌else◌, sort, text_eq,
  text_leb, text_compare, first,
}
use qdrant_operator.Qdrant.{SnapshotInfo}
use qdrant_operator.Api.Backup.{PendingSnapshot, QdrantBackup}

-- `range n`: 0, …, n - 1.
unfoldable pub range_from : ℕ → ℕ → List ℕ
range_from start zero = []
range_from start (suc n) = start ∷ range_from (suc start) n

abbrev pub pending_of : Text → ℕ → PendingSnapshot
pending_of coll ordinal = record { collection = coll; peer = ordinal; issued_at = none; known = [] }

unfoldable pub plan_generation : List Text → ℕ → List PendingSnapshot
unfolding range_from sort
plan_generation collections peers =
    if ltb peers 1
    then []
    else flat_map (λ coll. map (pending_of coll) (range_from 0 peers)) (sort text_leb collections)

abbrev pub is_known : List Text → Text → Bool
is_known names name = any (λ n. text_eq n name) names

-- The new snapshots, by name; the first is taken for the one that was issued.
unfoldable pub new_snapshot_name : List Text → List SnapshotInfo → Option SnapshotInfo
unfolding sort
new_snapshot_name before now =
    elim (sort (λ (a b : SnapshotInfo). text_leb a.name b.name)
      (filter (λ s. not (is_known before s.name)) now)) [ [] ↦ none | s ∷ rest ↦ some s ]

-- Newest first: by creation time, then by name.
abbrev pub newest_compare : SnapshotInfo → SnapshotInfo → Ordering
newest_compare a b =
    first (text_compare b.creation_time a.creation_time) (text_compare b.name a.name)

abbrev pub newest_leb : SnapshotInfo → SnapshotInfo → Bool
newest_leb a b = elim (newest_compare a b) as (λ x. Bool) [ Ordering.gt ↦ false | _ ↦ true ]

abbrev pub names_of : List SnapshotInfo → List Text
names_of = map (λ (s : SnapshotInfo). s.name)

unfoldable pub prunable : List SnapshotInfo → ℕ → List Text
unfolding sort
prunable snapshots keep_last =
    if ltb keep_last 1 || leb (length snapshots) keep_last
    then []
    else names_of (drop keep_last (sort newest_leb snapshots))

module _ (cron : Text → ℕ → Option ℕ) where
  unfoldable pub next_run : Text → ℕ → Option ℕ
  next_run schedule after = if is_empty schedule then none else cron schedule after

  unfoldable pub due_now : QdrantBackup → ℕ → Bool
  unfolding next_run
  due_now bk now =
      if bk.spec.suspend || is_empty bk.spec.schedule
      then false
      else elim bk.status.last_success_time [
        | none ↦ true
        | some t ↦ elim (next_run bk.spec.schedule t) [ none ↦ false | some next ↦ leb next now ]
      ]

  -- A schedule that does not parse leaves the time as it was.
  unfoldable pub set_next_schedule : QdrantBackup → ℕ → QdrantBackup
  unfolding next_run
  set_next_schedule bk now =
      let s = bk.status in
      let cleared = record s { next_schedule_time = none } in
      if is_empty bk.spec.schedule || bk.spec.suspend
      then record bk { status = cleared }
      else elim (next_run bk.spec.schedule now) [
        | none ↦ bk
        | some next ↦ record bk { status = record s { next_schedule_time = some next } }
      ]

unfoldable pub one_shot_due : QdrantBackup → Bool
one_shot_due bk =
    (is_empty bk.spec.schedule
      && (elim bk.status.last_success_time [ none ↦ true | some t ↦ false ]))
    && not bk.spec.suspend
