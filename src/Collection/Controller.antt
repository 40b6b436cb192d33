-- ===== src/Collection/Controller.antt =====
-- internal/controller/qdrantcollection_controller.go: `Reconcile` and `paramsMatch`.
use qdrant_operator.Common.{
  ℕ, ◌==◌, leb, Text, Bool, true, false, not, ◌&&◌, ◌||◌, Option, none, some, [], is_empty,
  if◌then◌else◌, text_eq,
}
use qdrant_operator.Qdrant.{CollectionSpec, CollectionInfo}
use qdrant_operator.Api.Conditions.{ConditionType, Reason}
use qdrant_operator.Api.Cluster.{QdrantCluster}
use qdrant_operator.Api.Collection.{CollectionDeletePolicy, ReshardPolicy, QdrantCollection}
use qdrant_operator.Pass.{seconds, minutes}
use qdrant_operator.Collection.Pass.{
  create_collection, delete_collection, update_object, event, found, not_found, failed, Inputs,
  CollectionPass, Outcome, called, set_status, requeue, fail, set_ready, set_degraded,
  physical_name, cluster_move_active,
}
use qdrant_operator.Collection.Reshard.{
  resolved_shard_number, reshardable, ensure_alias, begin_reshard, reconcile_reshard,
}

-- A live replication factor below the wanted one is adopted: the replicas are made up for later.
unfoldable pub params_match : CollectionInfo → CollectionSpec → Bool
params_match live want =
    (live.vector_size == want.vector_size && text_eq live.distance want.distance)
    && (live.shard_number == want.shard_number
        && leb live.replication_factor want.replication_factor)

unfoldable pub desired_spec : QdrantCollection → CollectionInfo → CollectionSpec
desired_spec col info = record {
  vector_size = col.spec.vectors.size;
  distance = col.spec.vectors.distance;
  shard_number = resolved_shard_number col info;
  replication_factor = col.spec.replication_factor;
}

-- The alias is brought in line, and the object is ready.
unfoldable pub align_and_ready : Inputs → CollectionPass → Text → ℕ → Outcome
align_and_ready inp p name points =
    let aligned = ensure_alias inp p p.collection.spec.alias name in
    if aligned.1
    then set_ready inp aligned.0 points
    else requeue (set_degraded inp aligned.0 Reason.alias_failed) (seconds 30)

unfoldable pub create_missing : Inputs → CollectionPass → Text → CollectionSpec → Outcome
create_missing inp p name want =
    let c = create_collection name want in
    let q = called p c in
    let r = called q (event Reason.collection_created) in
    let s = r.collection.status in
    if inp.accepts p.calls c
    then align_and_ready inp (set_status r (record s { adopted = false; active_collection = name }))
        name 0
    else requeue (set_degraded inp q Reason.create_failed) (seconds 30)

-- Found as wanted: adopted, unless the object was ready before.
unfoldable pub adopt : Inputs → CollectionPass → Text → CollectionInfo → Outcome
adopt inp p name info =
    let s = p.collection.status in
    let taken =
      called (set_status p (record s { adopted = true })) (event Reason.collection_adopted) in
    let q =
      if inp.conditions.is_status_condition_true s.conditions ConditionType.ready
      then p
      else taken in
    let s' = q.collection.status in
    align_and_ready inp (set_status q (record s' { active_collection = name })) name
      info.points_count

abbrev is_auto : ReshardPolicy → Bool
is_auto ReshardPolicy.auto = true
is_auto ReshardPolicy.manual = false

abbrev target_of : Option ℕ → ℕ
target_of none = 0
target_of (some n) = n

-- What the live collection is held against, and what follows.
unfoldable pub ensure : Inputs → CollectionPass → QdrantCluster → Text → CollectionInfo → Outcome
ensure inp p cluster name info =
    let want = desired_spec p.collection info in
    let opted = is_auto p.collection.spec.reshard && not (is_empty p.collection.spec.alias) in
    if not info.found
    then create_missing inp p name want
    else if params_match info want
    then adopt inp p name info
    else if reshardable info p.collection && opted
    then (if cluster_move_active cluster
        then requeue p (seconds 15)
        else begin_reshard inp p (target_of p.collection.spec.shard_number) info)
    else if reshardable info p.collection
    then requeue (set_degraded inp p Reason.reshard_required) (minutes 5)
    else requeue (set_degraded inp p Reason.params_mismatch) (minutes 5)

abbrev wants_delete : CollectionDeletePolicy → Bool
wants_delete CollectionDeletePolicy.delete = true
wants_delete CollectionDeletePolicy.retain = false

-- A reshard in progress comes first.
unfoldable pub drive : Inputs → CollectionPass → QdrantCluster → Text → Outcome
drive inp p cluster name = elim p.collection.status.reshard [
  | some rs ↦ reconcile_reshard inp p cluster rs
  | none ↦ elim (inp.get_collection p.calls name) [
    | none ↦ requeue (set_degraded inp p Reason.qdrant_unreachable) (seconds 30)
    | some info ↦ ensure inp p cluster name info
  ]
]

-- The finalizer stands exactly while `onDelete` is Delete; changing it updates the object.
unfoldable pub align_finalizer : Inputs → CollectionPass → QdrantCluster → Text → Outcome
align_finalizer inp p cluster name =
    let c = p.collection in
    let c' = record c { finalizer = wants_delete c.spec.on_delete } in
    let q = called (record p { collection = c' }) (update_object c') in
    if (wants_delete c.spec.on_delete && c.finalizer)
      || (not (wants_delete c.spec.on_delete) && not c.finalizer)
    then drive inp p cluster name
    else if inp.accepts p.calls (update_object c')
    then drive inp q cluster name
    else fail q

-- A deleted object: its collection goes only if the finalizer is there.
unfoldable pub clean_up : Inputs → CollectionPass → Text → Outcome
clean_up inp p name =
    let c = p.collection in
    let del = delete_collection name in
    let q = called p del in
    let c' = record c { finalizer = false } in
    let r = called (record q { collection = c' }) (event Reason.collection_deleted) in
    let u = called r (update_object c') in
    if not c.finalizer
    then requeue p 0
    else if not (inp.accepts p.calls del)
    then fail (called q (event Reason.delete_failed))
    else if inp.accepts r.calls (update_object c')
    then requeue u 0
    else fail u

unfoldable pub reconcile : Inputs → QdrantCollection → Outcome
reconcile inp col =
    let p : CollectionPass = record { collection = col; calls = [] } in
    elim inp.cluster [
      | failed ↦ fail p
      | not_found ↦ requeue (set_degraded inp p Reason.cluster_not_found) (seconds 30)
      | found cluster ↦
          if col.deleted
          then clean_up inp p (physical_name col)
          else align_finalizer inp p cluster (physical_name col)
    ]
