-- ===== src/Collection/Reshard.antt =====
-- internal/controller/reshard.go: shadow collection, copy in batches, atomic alias swap, disposal of
-- the source. The swap is the commit point.
use qdrant_operator.Common.{
  ℕ, ◌==◌, Text, Bool, true, false, not, ◌&&◌, Option, none, some, List, [], ◌∷◌, ◌++◌, length,
  is_empty, if◌then◌else◌, text_eq, format_uint, codes,
}
use qdrant_operator.Qdrant.{AliasAction, create_alias, delete_alias, CollectionSpec, CollectionInfo}
use qdrant_operator.Api.Conditions.{ConditionType, Reason}
use qdrant_operator.Api.Cluster.{QdrantCluster}
use qdrant_operator.Api.Collection.{
  CollectionDeletePolicy, CollectionPhase, ReshardPhase, ReshardStatus, QdrantCollection,
}
use qdrant_operator.Pass.{seconds, minutes}
use qdrant_operator.Rebalance.Observation.{find_text}
use qdrant_operator.Rebalance.Backoff.{backoff, add_int32}
use qdrant_operator.Rebalance.SizePlanner.{add64}
use qdrant_operator.Collection.Pass.{
  create_collection, delete_collection, update_aliases, upsert_points, event, Inputs,
  CollectionPass, Outcome, called, set_status, set_reshard, put_condition, requeue, commit,
  set_ready, set_degraded, physical_name, cluster_move_active,
}

-- No number in the spec adopts the live one.
unfoldable pub resolved_shard_number : QdrantCollection → CollectionInfo → ℕ
resolved_shard_number col live = elim col.spec.shard_number [
  | some n ↦ n
  | none ↦ if live.found then live.shard_number else 1
]

abbrev differs : Option ℕ → ℕ → Bool
differs none n = false
differs (some m) n = not (n == m)

-- Everything agrees but the number of shards, and that is given.
unfoldable pub reshardable : CollectionInfo → QdrantCollection → Bool
reshardable live col =
    (live.found && live.vector_size == col.spec.vectors.size)
    && ((text_eq live.distance col.spec.vectors.distance
          && live.replication_factor == col.spec.replication_factor)
        && differs col.spec.shard_number live.shard_number)

-- The alias moves in one update: off its old collection, if it had one, and on to the new.
unfoldable pub swap_actions : List (Text × Text) → Text → Text → List AliasAction
swap_actions aliases alias target = elim (find_text alias aliases) [
  | some t ↦ delete_alias alias ∷ create_alias alias target ∷ []
  | none ↦ create_alias alias target ∷ []
]

abbrev points_at : Option Text → Text → Bool
points_at none target = false
points_at (some t) target = text_eq t target

-- Of `aliases[alias] == target`, where a missing alias reads as the empty text.
abbrev pub alias_is : List (Text × Text) → Text → Text → Bool
alias_is aliases alias target = elim (find_text alias aliases) [
  | none ↦ is_empty target
  | some t ↦ text_eq t target
]

-- `ensureAlias`: nothing to do, or one update. False is an error.
unfoldable pub ensure_alias : Inputs → CollectionPass → Text → Text → CollectionPass × Bool
ensure_alias inp p alias physical =
    if is_empty alias then (p, true) else elim (inp.list_aliases p.calls) [
      | none ↦ (p, false)
      | some aliases ↦
          let c = update_aliases (swap_actions aliases alias physical) in
          if alias_is aliases alias physical then (p, true) else (called p c, inp.accepts p.calls c)
    ]

abbrev pub shadow_name : QdrantCollection → Text
shadow_name col = physical_name col ++ (codes "-rs-g" ++ format_uint col.generation)

unfoldable pub begin_reshard : Inputs → CollectionPass → ℕ → CollectionInfo → Outcome
begin_reshard inp p target info =
    let s = p.collection.status in
    let rs : ReshardStatus = record {
      phase = ReshardPhase.preparing;
      source_collection = physical_name p.collection;
      shadow_collection = shadow_name p.collection;
      target_shard_number = target;
      copied_points = 0;
      total_points = info.points_count;
      cursor = [];
      started_at = some inp.now;
      attempts = 0;
    } in
    commit inp
      (called (set_status p (record s { reshard = some rs; phase = CollectionPhase.resharding }))
        (event Reason.reshard_started))
      (seconds 1)

-- The shadow is thrown away, whatever the deletion answers, and the attempt is counted.
unfoldable pub fail_reshard : Inputs → CollectionPass → ReshardStatus → Reason → Outcome
fail_reshard inp p rs reason =
    let q = called p (delete_collection rs.shadow_collection) in
    let attempts' = add_int32 rs.attempts 1 in
    let s = q.collection.status in
    let rs' = record rs {
      phase = ReshardPhase.failed;
      cursor = [];
      copied_points = 0;
      attempts = attempts';
    } in
    let r = set_status q (record s { reshard = some rs'; phase = CollectionPhase.degraded }) in
    commit inp (called (put_condition inp r ConditionType.degraded true reason) (event reason))
      (backoff attempts')

-- The shadow is ready: the copy starts at the beginning.
abbrev start_copy : Inputs → CollectionPass → ReshardStatus → Outcome
start_copy inp p rs =
    commit inp
      (set_reshard p
        (some (record rs { phase = ReshardPhase.copying; cursor = []; copied_points = 0 })))
      (seconds 1)

abbrev pub shadow_spec : QdrantCollection → ReshardStatus → CollectionSpec
shadow_spec col rs = record {
  vector_size = col.spec.vectors.size;
  distance = col.spec.vectors.distance;
  shard_number = rs.target_shard_number;
  replication_factor = col.spec.replication_factor;
}

-- What qdrant knows of the shadow decides: an error, no such collection, one of the right shape that an
-- earlier pass has made, or a foreign one.
unfoldable pub prepare_with :
    Inputs → CollectionPass → ReshardStatus → Option CollectionInfo → Outcome
prepare_with inp p rs none = fail_reshard inp p rs Reason.reshard_failed
prepare_with inp p rs (some info) =
    let c = create_collection rs.shadow_collection (shadow_spec p.collection rs) in
    if not info.found
    then (if inp.accepts p.calls c
        then start_copy inp (called p c) rs
        else fail_reshard inp (called p c) rs Reason.reshard_failed)
    else (if info.shard_number == rs.target_shard_number
        then start_copy inp p rs
        else requeue
            (set_degraded inp (set_reshard p (some (record rs { phase = ReshardPhase.blocked })))
              Reason.shadow_conflict)
            (minutes 5))

unfoldable pub prepare_shadow : Inputs → CollectionPass → ReshardStatus → Outcome
prepare_shadow inp p rs = prepare_with inp p rs (inp.get_collection p.calls rs.shadow_collection)

-- The cursor is used up: swap only if the source still has as many points as at the start.
unfoldable pub finish_with :
    Inputs → CollectionPass → ReshardStatus → Option CollectionInfo → Outcome
finish_with inp p rs none = fail_reshard inp p rs Reason.reshard_failed
finish_with inp p rs (some src) =
    if src.points_count == rs.total_points
    then commit inp (set_reshard p (some (record rs { phase = ReshardPhase.swapping }))) (seconds 1)
    else fail_reshard inp p rs Reason.source_mutated

unfoldable pub finish_copy : Inputs → CollectionPass → ReshardStatus → Outcome
finish_copy inp p rs = finish_with inp p rs (inp.get_collection p.calls rs.source_collection)

-- The batch is written; `next` is where the following one starts.
unfoldable pub after_batch : Inputs → CollectionPass → ReshardStatus → Option Text → Outcome
after_batch inp p rs none = finish_copy inp p rs
after_batch inp p rs (some next) =
    commit inp (set_reshard p (some (record rs { cursor = next }))) 200000000

-- The batch that was read, if it was.
unfoldable pub copy_with :
    Inputs → CollectionPass → ReshardStatus → Option (List Text × Option Text) → Outcome
copy_with inp p rs none = fail_reshard inp p rs Reason.reshard_failed
copy_with inp p rs (some (points, next)) =
    let c = upsert_points rs.shadow_collection points in
    let rs' = record rs { copied_points = add64 rs.copied_points (length points) } in
    if is_empty points
    then after_batch inp p rs next
    else (if inp.accepts p.calls c
        then after_batch inp (called p c) rs' next
        else fail_reshard inp (called p c) rs Reason.reshard_failed)

unfoldable pub copy_step : Inputs → CollectionPass → QdrantCluster → ReshardStatus → Outcome
copy_step inp p cluster rs =
    if cluster_move_active cluster
    then requeue p (seconds 15)
    else copy_with inp p rs (inp.scroll_points p.calls rs.source_collection rs.cursor)

-- After the update the aliases are read again: the commit point is verified.
unfoldable pub verify_with :
    Inputs → CollectionPass → ReshardStatus → Option (List (Text × Text)) → Outcome
verify_with inp p rs none = fail_reshard inp p rs Reason.reshard_failed
verify_with inp p rs (some after) =
    if alias_is after p.collection.spec.alias rs.shadow_collection
    then commit inp (set_reshard p (some (record rs { phase = ReshardPhase.finalizing })))
        (seconds 1)
    else fail_reshard inp p rs Reason.reshard_failed

unfoldable pub verify_swap : Inputs → CollectionPass → ReshardStatus → Outcome
verify_swap inp p rs = verify_with inp p rs (inp.list_aliases p.calls)

unfoldable pub swap_with :
    Inputs → CollectionPass → ReshardStatus → Option (List (Text × Text)) → Outcome
swap_with inp p rs none = fail_reshard inp p rs Reason.reshard_failed
swap_with inp p rs (some aliases) =
    let c = update_aliases (swap_actions aliases p.collection.spec.alias rs.shadow_collection) in
    if inp.accepts p.calls c
    then verify_swap inp (called p c) rs
    else fail_reshard inp (called p c) rs Reason.reshard_failed

unfoldable pub swap_alias : Inputs → CollectionPass → ReshardStatus → Outcome
swap_alias inp p rs = swap_with inp p rs (inp.list_aliases p.calls)

-- The workflow is over: its record goes and the object is ready.
abbrev complete : Inputs → CollectionPass → ReshardStatus → Outcome
complete inp p rs =
    set_ready inp (called (set_reshard p none) (event Reason.reshard_completed)) rs.total_points

-- The source goes only if the object says so; a failed deletion is tried again.
unfoldable pub dispose_source :
    Inputs → CollectionPass → ReshardStatus → CollectionDeletePolicy → Outcome
dispose_source inp p rs CollectionDeletePolicy.delete =
    let c = delete_collection rs.source_collection in
    if inp.accepts p.calls c
    then complete inp (called (called p c) (event Reason.source_deleted)) rs
    else requeue (called (called p c) (event Reason.source_disposal_retry)) (seconds 30)
dispose_source inp p rs CollectionDeletePolicy.retain =
    complete inp (called p (event Reason.source_retained)) rs

-- Past the commit point there is no way back: the shadow is the collection now.
unfoldable pub finalize : Inputs → CollectionPass → ReshardStatus → Outcome
finalize inp p rs =
    let s = p.collection.status in
    dispose_source inp (set_status p (record s { active_collection = rs.shadow_collection })) rs
      p.collection.spec.on_delete

-- Another target in the spec ends the workflow in any phase.
unfoldable pub abort_reshard : Inputs → CollectionPass → ReshardStatus → Outcome
abort_reshard inp p rs =
    commit inp
      (called (set_reshard (called p (delete_collection rs.shadow_collection)) none)
        (event Reason.reshard_aborted))
      (seconds 1)

abbrev pub target_changed : QdrantCollection → ReshardStatus → Bool
target_changed col rs = elim col.spec.shard_number [
  | none ↦ true
  | some n ↦ not (n == rs.target_shard_number)
]

unfoldable pub reshard_phase :
    Inputs → CollectionPass → QdrantCluster → ReshardStatus → ReshardPhase → Outcome
reshard_phase inp p cluster rs ReshardPhase.preparing = prepare_shadow inp p rs
reshard_phase inp p cluster rs ReshardPhase.failed = prepare_shadow inp p rs
reshard_phase inp p cluster rs ReshardPhase.copying = copy_step inp p cluster rs
reshard_phase inp p cluster rs ReshardPhase.swapping = swap_alias inp p rs
reshard_phase inp p cluster rs ReshardPhase.finalizing = finalize inp p rs
reshard_phase inp p cluster rs ReshardPhase.blocked = requeue p (minutes 5)
reshard_phase inp p cluster rs (ReshardPhase.other t) = requeue p 0

unfoldable pub reconcile_reshard : Inputs → CollectionPass → QdrantCluster → ReshardStatus → Outcome
reconcile_reshard inp p cluster rs =
    if target_changed p.collection rs
    then abort_reshard inp p rs
    else reshard_phase inp p cluster rs rs.phase
