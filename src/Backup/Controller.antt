-- ===== src/Backup/Controller.antt =====
-- internal/controller/qdrantbackup_controller.go: a pass over a QdrantBackup. What kubernetes, qdrant
-- and the cron parser answer is the parameter `Inputs`; metrics are left out.
use qdrant_operator.Common.{
  ℕ, ◌-◌, ◌==◌, ltb, min, Text, Bool, true, false, not, ◌&&◌, ◌||◌, Option, none, some, List, [],
  ◌∷◌, ◌++◌, any, is_empty, if◌then◌else◌, text_eq,
}
use qdrant_operator.Qdrant.{SnapshotInfo}
use qdrant_operator.Api.Conditions.{ConditionType, ConditionLib, Condition, Reason}
use qdrant_operator.Api.Cluster.{QdrantCluster}
use qdrant_operator.Api.Backup.{
  BackupPhase, PendingSnapshot, SnapshotRef, QdrantBackupStatus, QdrantBackup,
}
use qdrant_operator.Pass.{seconds, minutes}
use qdrant_operator.Backup.Plan.{
  plan_generation, new_snapshot_name, prunable, names_of, next_run, due_now, set_next_schedule,
  one_shot_due,
}

-- The calls of a pass that change something outside.
pub data BackupCall : Type 0 where
  create_snapshot : ℕ → Text → BackupCall
  delete_snapshot : ℕ → Text → Text → BackupCall
  update_status : QdrantBackupStatus → BackupCall
  event : Reason → BackupCall

pub data Lookup : Type 0 where
  found : QdrantCluster → Lookup
  not_found failed : Lookup

pub record Inputs : Type 0 where
  pub now : ℕ
  pub conditions : ConditionLib
  pub cron : Text → ℕ → Option ℕ
  pub same_status : QdrantBackupStatus → QdrantBackupStatus → Bool
  pub cluster : Lookup
  pub list_snapshots : ℕ → Text → Option (List SnapshotInfo)
  pub list_collections : Option (List Text)
  pub accepts : BackupCall → Bool

pub record BackupPass : Type 0 where
  pub backup : QdrantBackup
  pub calls : List BackupCall

abbrev pub called : BackupPass → BackupCall → BackupPass
called p c = record p { calls = p.calls ++ (c ∷ []) }

abbrev pub set_status : BackupPass → QdrantBackupStatus → BackupPass
set_status p s = let bk = p.backup in record p { backup = record bk { status = s } }

abbrev condition_of : BackupPass → ConditionType → Bool → Reason → Condition
condition_of p t value reason = record {
  type = t;
  status = value;
  reason = reason;
  observed_generation = p.backup.generation;
}

abbrev put_condition : Inputs → BackupPass → ConditionType → Bool → Reason → BackupPass
put_condition inp p t value reason =
    let s = p.backup.status in
    set_status p (record s {
      conditions = inp.conditions.set_status_condition s.conditions (condition_of p t value reason);
    })

unfoldable pub degrade : Inputs → BackupPass → Reason → BackupPass
degrade inp p reason =
    let s = p.backup.status in
    put_condition inp (set_status p (record s { phase = BackupPhase.degraded }))
      ConditionType.degraded true reason

unfoldable pub clear_degraded : Inputs → BackupPass → BackupPass
clear_degraded inp p =
    elim (inp.conditions.find_status_condition p.backup.status.conditions ConditionType.degraded) [
      | none ↦ p
      | some c ↦
          if c.status
          then put_condition inp p ConditionType.degraded false Reason.backup_completed
          else p
    ]

abbrev pub snapshot_appear_deadline : ℕ
snapshot_appear_deadline = minutes 30

abbrev is_recent : ℕ → Option ℕ → Bool
is_recent now none = false
is_recent now (some t) = ltb (now - t) snapshot_appear_deadline

-- A new name in the list completes the snapshot; past the deadline the generation is given up.
unfoldable pub settle : Inputs → BackupPass → PendingSnapshot → BackupPass × ℕ
settle inp p active =
    let s = p.backup.status in
    elim (inp.list_snapshots active.peer active.collection) [
      | none ↦ (p, seconds 30)
      | some snapshots ↦ elim (new_snapshot_name active.known snapshots) [
        | some snap ↦ (
          set_status p (record s {
            snapshots =
                s.snapshots
                ++ (record {
                  collection = active.collection;
                  peer = active.peer;
                  name = snap.name;
                  created_at = snap.creation_time;
                }
                    ∷ []);
            active = none;
          }),
          seconds 1,
        )
        | none ↦
            if is_recent inp.now active.issued_at
            then (set_status p (record s { phase = BackupPhase.creating }), seconds 30)
            else (let q =
                  called (degrade inp p Reason.snapshot_failed) (event Reason.snapshot_failed) in
                let s' = q.backup.status in
                (set_status q (record s' { active = none; pending = [] }), minutes 1))
      ]
    ]

-- The names seen before the call are kept: they tell the new snapshot from the others.
unfoldable pub issue : Inputs → BackupPass → PendingSnapshot → List PendingSnapshot → BackupPass × ℕ
issue inp p next rest = elim (inp.list_snapshots next.peer next.collection) [
  | none ↦ (p, seconds 30)
  | some before ↦
      let q = called p (create_snapshot next.peer next.collection) in
      let s = q.backup.status in
      let lost = called (degrade inp q Reason.snapshot_failed) (event Reason.snapshot_failed) in
      let s' = lost.backup.status in
      if inp.accepts (create_snapshot next.peer next.collection)
      then (
        called
            (set_status q (record s {
              active =
                  some (record next {
                    known = next.known ++ names_of before;
                    issued_at = some inp.now;
                  });
              pending = rest;
              phase = BackupPhase.creating;
            }))
            (event Reason.snapshot_issued),
        seconds 10,
      )
      else (set_status lost (record s' { pending = [] }), minutes 1)
]

abbrev is_creating : BackupPhase → Bool
is_creating BackupPhase.creating = true
is_creating _ = false

abbrev is_none {ℓ} : {A : Type ℓ} → Option A → Bool
is_none none = true
is_none (some a) = false

unfoldable pub generation_just_finished : QdrantBackup → Bool
generation_just_finished bk =
    (is_creating bk.status.phase && is_none bk.status.active) && is_empty bk.status.pending

-- The deletions for one snapshot list, each followed by its event.
unfoldable pub prune_names : Inputs → ℕ → Text → List Text → List BackupCall → List BackupCall
prune_names inp peer coll [] calls = calls
prune_names inp peer coll (name ∷ names) calls = prune_names inp peer coll names (
    calls
    ++ (delete_snapshot peer coll name
        ∷ event (
            if inp.accepts (delete_snapshot peer coll name)
            then Reason.snapshot_pruned
            else Reason.prune_failed)
        ∷ []))

abbrev was_seen : List (Text × ℕ) → SnapshotRef → Bool
was_seen seen r = any (λ k. text_eq k.0 r.collection && k.1 == r.peer) seen

unfoldable pub prune_refs :
    Inputs → ℕ → List (Text × ℕ) → List SnapshotRef → List BackupCall → List BackupCall
prune_refs inp keep_last seen [] calls = calls
prune_refs inp keep_last seen (r ∷ refs) calls =
    prune_refs inp keep_last ((r.collection, r.peer) ∷ seen) refs (
      if was_seen seen r then calls else elim (inp.list_snapshots r.peer r.collection) [
        | none ↦ calls
        | some snapshots ↦ prune_names inp r.peer r.collection (prunable snapshots keep_last) calls
      ])

-- The only deletions of this controller: without retention there are none.
unfoldable pub prune : Inputs → BackupPass → BackupPass
prune inp p = elim p.backup.spec.retention [
  | none ↦ p
  | some r ↦
      if ltb r.keep_last 1
      then p
      else record p { calls = prune_refs inp r.keep_last [] p.backup.status.snapshots p.calls }
]

unfoldable pub finish_generation : Inputs → BackupPass → BackupPass
finish_generation inp p =
    let s = p.backup.status in
    let done = set_status p (record s { last_success_time = some inp.now }) in
    prune inp (
      called
        (clear_degraded inp
          (put_condition inp done ConditionType.ready true Reason.backup_completed))
        (event Reason.backup_completed))

abbrev planned : BackupPass → List PendingSnapshot → ℕ → BackupPass × ℕ
planned p [] now =
    let s = p.backup.status in
    (set_status p (record s { last_success_time = some now; phase = BackupPhase.ready }), minutes 5)
planned p (x ∷ plan) now =
    let s = p.backup.status in
    (
      set_status p (record s { snapshots = []; pending = x ∷ plan; phase = BackupPhase.creating }),
      seconds 1,
    )

abbrev collections_of : Inputs → QdrantBackup → Option (List Text)
collections_of inp bk =
    if is_empty bk.spec.collections then inp.list_collections else some bk.spec.collections

unfoldable pub open_generation : Inputs → BackupPass → QdrantCluster → BackupPass × ℕ
open_generation inp p cluster = elim (collections_of inp p.backup) [
  | none ↦ (degrade inp p Reason.qdrant_unreachable, seconds 30)
  | some collections ↦ planned p (plan_generation collections cluster.spec.replicas) inp.now
]

abbrev rest_phase : Option ℕ → BackupPhase
rest_phase none = BackupPhase.idle
rest_phase (some t) = BackupPhase.ready

abbrev rest_delay : Option ℕ → ℕ → ℕ
rest_delay none now = minutes 5
rest_delay (some t) now = if ltb now t then min (t - now) (minutes 5) else minutes 5

abbrev close_if_finished : Inputs → BackupPass → BackupPass
close_if_finished inp p =
    if not (is_empty p.backup.status.snapshots) && generation_just_finished p.backup
    then finish_generation inp p
    else p

-- Between generations: the last one is closed, the schedule is set, and the next is opened if due.
unfoldable pub idle : Inputs → BackupPass → QdrantCluster → BackupPass × ℕ
idle inp p cluster =
    let q = close_if_finished inp p in
    let s = q.backup.status in
    let seen = set_status q (record s { observed_generation = q.backup.generation }) in
    let bk = set_next_schedule inp.cron seen.backup inp.now in
    let r = record seen { backup = bk } in
    let s' = bk.status in
    if one_shot_due bk || due_now inp.cron bk inp.now then open_generation inp r cluster else (
      set_status r (record s' { phase = rest_phase s'.last_success_time }),
      rest_delay s'.next_schedule_time inp.now,
    )

unfoldable pub advance : Inputs → BackupPass → QdrantCluster → BackupPass × ℕ
advance inp p cluster = elim p.backup.status.active [
  | some active ↦ settle inp p active
  | none ↦ elim p.backup.status.pending [
    | next ∷ rest ↦ issue inp p next rest
    | [] ↦ idle inp p cluster
  ]
]

pub record Outcome : Type 0 where
  pub pass : BackupPass
  pub requeue_after : ℕ
  pub failed : Bool

-- The status is written only where it changed.
unfoldable pub commit : Inputs → QdrantBackupStatus → BackupPass → ℕ → Outcome
commit inp before p d =
    let s = p.backup.status in
    if inp.same_status before s
    then record { pass = p; requeue_after = d; failed = false }
    else if inp.accepts (update_status s)
    then record { pass = called p (update_status s); requeue_after = d; failed = false }
    else record { pass = called p (update_status s); requeue_after = 0; failed = true }

abbrev schedule_is_bad : Inputs → QdrantBackup → Bool
schedule_is_bad inp bk =
    not (is_empty bk.spec.schedule) && is_none (next_run inp.cron bk.spec.schedule inp.now)

unfoldable pub reconcile : Inputs → QdrantBackup → Outcome
reconcile inp bk =
    let p : BackupPass = record { backup = bk; calls = [] } in
    elim inp.cluster [
      | failed ↦ record { pass = p; requeue_after = 0; failed = true }
      | not_found ↦ commit inp bk.status (degrade inp p Reason.cluster_not_found) (seconds 30)
      | found cluster ↦
          let r = advance inp p cluster in
          if schedule_is_bad inp bk
          then commit inp bk.status (degrade inp p Reason.schedule_invalid) 0
          else commit inp bk.status r.0 r.1
    ]
