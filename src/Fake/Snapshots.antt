-- ===== src/Fake/Snapshots.antt =====
-- `CreateSnapshot`, `ListSnapshots`, `DeleteSnapshot` and `RecoverSnapshot`.
use qdrant_operator.Common.{
  ◌+◌, ◌==◌, Text, true, not, List, [], ◌∷◌, ◌++◌, filter, length, is_empty, if◌then◌else◌, text_eq,
  codes, format_uint,
}
use qdrant_operator.Common.Dict
use qdrant_operator.Common.Dict.{text_key}
use qdrant_operator.Qdrant.{SnapshotInfo}
use qdrant_operator.Fake.{Fake}
use qdrant_operator.Fake.Answer.{
  Answer, done, failed, collection_missing, snapshot_missing, unless_injected, injected_on,
}
use qdrant_operator.Fake.Seed.{no_collection}

abbrev pub snapshots_of : Fake → Text → List SnapshotInfo
snapshots_of f name = Dict.lookup_or [] name f.snapshots

-- "<collection>-<seq>", created at the planted time, or at `now` where none is.
abbrev pub next_snapshot : Fake → Text → Text → SnapshotInfo
next_snapshot f now name = record {
  name = name ++ (codes "-" ++ format_uint (f.snapshot_seq + 1));
  creation_time = if is_empty f.snapshot_now then now else f.snapshot_now;
  size = 0;
}

unfoldable pub create_snapshot : Fake → Text → Text → Answer Fake
create_snapshot f now name = unless_injected (injected_on f (codes "CreateSnapshot")) (
    if Dict.has name f.collections
    then done (record f {
      snapshot_seq = f.snapshot_seq + 1;
      snapshots =
          Dict.put name (snapshots_of f name ++ (next_snapshot f now name ∷ [])) f.snapshots;
    })
    else failed (collection_missing name))

unfoldable pub list_snapshots : Fake → Text → Answer (List SnapshotInfo)
list_snapshots f name =
    unless_injected (injected_on f (codes "ListSnapshots")) (done (snapshots_of f name))

abbrev pub without_name : Text → List SnapshotInfo → List SnapshotInfo
without_name name snaps = filter (λ (s : SnapshotInfo). not (text_eq s.name name)) snaps

-- The list is written back before the check that something went from it.
unfoldable pub delete_snapshot : Fake → Text → Text → Answer Fake
delete_snapshot f collection name =
    let left = without_name name (snapshots_of f collection) in
    unless_injected (injected_on f (codes "DeleteSnapshot")) (
      if length left == length (snapshots_of f collection)
      then failed (snapshot_missing collection name)
      else done (record f { snapshots = Dict.put collection left f.snapshots }))

-- Nothing is moved: the call is noted, and a collection that was missing is there.
unfoldable pub recover_snapshot : Fake → Text → Text → Text → Answer Fake
recover_snapshot f collection location priority =
    let note = collection ++ (codes "<-" ++ (location ++ (codes "(" ++ (priority ++ codes ")")))) in
    let restored = record no_collection { found = true } in
    unless_injected (injected_on f (codes "RecoverSnapshot")) (
      done (record f {
        recovered = f.recovered ++ (note ∷ []);
        collections =
            if Dict.has collection f.collections
            then f.collections
            else Dict.put collection restored f.collections;
      }))
