-- ===== src/Backup/Tests.antt =====
-- The theorems on backups, at concrete lists of snapshots.
use qdrant_operator.Common.{[], ◌∷◌, arith, codes}
use qdrant_operator.Qdrant.{SnapshotInfo}
use qdrant_operator.Backup.Plan.{new_snapshot_name, prunable}
use qdrant_operator.Backup.Selection.{IsRecognised, new_snapshot-IsRecognised}
use qdrant_operator.Backup.Retention.{IsPruning, prunable-IsPruning}

abbrev monday : SnapshotInfo
monday = record { name = codes "docs-1"; creation_time = codes "2026-08-24T00:00:00"; size = 9 }

abbrev tuesday : SnapshotInfo
tuesday = record { name = codes "docs-2"; creation_time = codes "2026-08-25T00:00:00"; size = 9 }

new_snapshot-IsRecognised_example :
    IsRecognised
      (codes "docs-1" ∷ [])
      (monday ∷ tuesday ∷ [])
      (new_snapshot_name (codes "docs-1" ∷ []) (monday ∷ tuesday ∷ []))
new_snapshot-IsRecognised_example =
    new_snapshot-IsRecognised (codes "docs-1" ∷ []) (monday ∷ tuesday ∷ [])

prunable-IsPruning_example :
    IsPruning (monday ∷ tuesday ∷ []) 1 (prunable (monday ∷ tuesday ∷ []) 1)
prunable-IsPruning_example = prunable-IsPruning (monday ∷ tuesday ∷ []) 1 (ground arith)
