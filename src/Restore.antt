-- ===== src/Restore.antt =====
-- internal/controller/qdrantrestore_controller.go: one recovery per peer, one at a time, once.
pub mod Progress
mod Tests
use qdrant_operator.Common.{
  ℕ, Text, Bool, true, false, ◌&&◌, ◌||◌, Option, none, some, List, [], ◌∷◌, ◌++◌, map, filter,
  is_empty, if◌then◌else◌, text_eq, format_uint, codes,
}
use qdrant_operator.Api.Conditions.{ConditionType, ConditionLib, Reason}
use qdrant_operator.Api.Spec.{SnapshotStorage, SnapshotsSpec}
use qdrant_operator.Api.Cluster.{QdrantCluster}
use qdrant_operator.Api.Backup.{SnapshotRef, QdrantBackup}
use qdrant_operator.Api.Restore.{RestorePhase, RestoreSource, QdrantRestoreStatus, QdrantRestore}
use qdrant_operator.Pass.{seconds, minutes}

pub data RestoreCall : Type 0 where
  recover_snapshot : ℕ → Text → Text → Text → RestoreCall
  update_status : QdrantRestoreStatus → RestoreCall
  event : Reason → RestoreCall

pub data Lookup : Type 0 where
  found : QdrantCluster → Lookup
  not_found failed : Lookup

-- `backup` answers the read of the QdrantBackup by its name.
pub record Inputs : Type 0 where
  pub now : ℕ
  pub conditions : ConditionLib
  pub same_status : QdrantRestoreStatus → QdrantRestoreStatus → Bool
  pub cluster : Lookup
  pub backup : Text → Option QdrantBackup
  pub accepts : RestoreCall → Bool

pub record RestorePass : Type 0 where
  pub restore : QdrantRestore
  pub calls : List RestoreCall

pub record Outcome : Type 0 where
  pub pass : RestorePass
  pub requeue_after : ℕ
  pub failed : Bool

abbrev called : RestorePass → RestoreCall → RestorePass
called p c = record p { calls = p.calls ++ (c ∷ []) }

abbrev set_status : RestorePass → QdrantRestoreStatus → RestorePass
set_status p s = let r = p.restore in record p { restore = record r { status = s } }

abbrev put_condition : Inputs → RestorePass → ConditionType → Bool → Reason → RestorePass
put_condition inp p t value reason =
    let s = p.restore.status in
    set_status p (record s {
      conditions = inp.conditions.set_status_condition s.conditions (record {
        type = t;
        status = value;
        reason = reason;
        observed_generation = p.restore.generation;
      });
    })

unfoldable pub degrade_restore : Inputs → RestorePass → Reason → RestorePass
degrade_restore inp p reason =
    let s = p.restore.status in
    put_condition inp (set_status p (record s { phase = RestorePhase.degraded }))
      ConditionType.degraded true reason

unfoldable pub commit_restore : Inputs → QdrantRestoreStatus → RestorePass → ℕ → Outcome
commit_restore inp before p d =
    let s = p.restore.status in
    if inp.same_status before s
    then record { pass = p; requeue_after = d; failed = false }
    else if inp.accepts (update_status s)
    then record { pass = called p (update_status s); requeue_after = d; failed = false }
    else record { pass = called p (update_status s); requeue_after = 0; failed = true }

-- `http://<name>-<ordinal>.<name>-headless.<namespace>.svc:6333/collections/…/snapshots/…`.
unfoldable pub peer_snapshot_url : QdrantCluster → ℕ → Text → Text → Text
peer_snapshot_url cluster ordinal coll snapshot =
    codes "http://"
    ++ (cluster.name
        ++ (codes "-"
            ++ (format_uint ordinal
                ++ (codes "."
                    ++ (cluster.name
                        ++ (codes "-headless."
                            ++ (cluster.namespace
                                ++ (codes ".svc:6333/collections/"
                                    ++ (coll ++ (codes "/snapshots/" ++ snapshot))))))))))

abbrev source_of : QdrantCluster → SnapshotRef → RestoreSource
source_of cluster s = record {
  peer = s.peer;
  location = peer_snapshot_url cluster s.peer s.collection s.name;
}

abbrev nonempty_sources : List RestoreSource → Option (List RestoreSource)
nonempty_sources [] = none
nonempty_sources (s ∷ ss) = some (s ∷ ss)

abbrev is_s3 : SnapshotStorage → Bool
is_s3 SnapshotStorage.s3 = true
is_s3 _ = false

-- `sn != nil && sn.Storage == SnapshotStorageS3`.
unfoldable pub in_s3 : Option SnapshotsSpec → Bool
in_s3 none = false
in_s3 (some snapshots) = is_s3 snapshots.storage

-- Given sources win; without them the backup's snapshots of the collection are taken, unless they lie
-- in S3. None is an error.
unfoldable pub resolve_sources :
    Inputs → QdrantRestore → QdrantCluster → Option (List RestoreSource)
resolve_sources inp rs cluster = elim rs.spec.sources [
  | s ∷ ss ↦ some (s ∷ ss)
  | [] ↦
      if is_empty rs.spec.from_backup || in_s3 cluster.spec.snapshots
      then none
      else elim (inp.backup rs.spec.from_backup) [
        | none ↦ none
        | some bk ↦ nonempty_sources (
            map (source_of cluster) (
              filter (λ (s : SnapshotRef). text_eq s.collection rs.spec.collection)
                bk.status.snapshots))
      ]
]

-- `SnapshotPrioritySnapshot` where none is given.
abbrev pub priority_of : QdrantRestore → Text
priority_of rs = if is_empty rs.spec.priority then codes "snapshot" else rs.spec.priority

abbrev pub recover_call : QdrantRestore → RestoreSource → RestoreCall
recover_call rs next = recover_snapshot next.peer rs.spec.collection next.location (priority_of rs)

unfoldable pub restore_next :
    Inputs → QdrantRestoreStatus → RestorePass → RestoreSource → List RestoreSource → Outcome
restore_next inp before p next rest =
    let c = recover_call p.restore next in
    let q = called p c in
    let s = q.restore.status in
    if inp.accepts c
    then commit_restore inp before
        (called
          (set_status q (record s {
            restored = s.restored ++ (next ∷ []);
            pending = rest;
            phase = RestorePhase.restoring;
          }))
          (event Reason.restore_issued))
        (seconds 1)
    else commit_restore inp before
        (called (degrade_restore inp q Reason.restore_failed) (event Reason.restore_failed))
        (minutes 1)

unfoldable pub finish_restore : Inputs → QdrantRestoreStatus → RestorePass → Outcome
finish_restore inp before p =
    let s = p.restore.status in
    let q = set_status p (record s {
      completion_time = some inp.now;
      phase = RestorePhase.ready;
      observed_generation = p.restore.generation;
    }) in
    commit_restore inp before
      (called (put_condition inp q ConditionType.ready true Reason.restore_completed)
        (event Reason.restore_completed))
      0

-- The next of the pending recoveries, or the end.
unfoldable pub step_restore : Inputs → QdrantRestoreStatus → RestorePass → Outcome
step_restore inp before p = elim p.restore.status.pending [
  | next ∷ rest ↦ restore_next inp before p next rest
  | [] ↦ finish_restore inp before p
]

abbrev is_fresh : QdrantRestoreStatus → Bool
is_fresh s = is_empty s.pending && is_empty s.restored

unfoldable pub drive_restore : Inputs → QdrantRestoreStatus → RestorePass → QdrantCluster → Outcome
drive_restore inp before p cluster =
    let s = p.restore.status in
    if is_fresh s
    then (elim (resolve_sources inp p.restore cluster) [
      | none ↦ commit_restore inp before (degrade_restore inp p Reason.no_snapshot_refs) (minutes 1)
      | some sources ↦
          step_restore inp before
            (set_status p (record s { pending = sources; phase = RestorePhase.restoring }))
    ])
    else step_restore inp before p

-- The cluster as it was looked up.
unfoldable pub restore_in : Inputs → RestorePass → Lookup → Outcome
restore_in inp p failed = record { pass = p; requeue_after = 0; failed = true }
restore_in inp p not_found =
    commit_restore inp p.restore.status (degrade_restore inp p Reason.cluster_not_found)
      (seconds 30)
restore_in inp p (found cluster) = drive_restore inp p.restore.status p cluster

-- A completed restore is never run again.
unfoldable pub restore_once : Inputs → RestorePass → Option ℕ → Outcome
restore_once inp p (some t) = record { pass = p; requeue_after = 0; failed = false }
restore_once inp p none = restore_in inp p inp.cluster

abbrev pub start : QdrantRestore → RestorePass
start rs = record { restore = rs; calls = [] }

unfoldable pub reconcile : Inputs → QdrantRestore → Outcome
reconcile inp rs = restore_once inp (start rs) rs.status.completion_time
