-- ===== src/Collection/Pass.antt =====
-- One pass over a QdrantCollection: the object in memory and the calls that change something, in
-- order. What kubernetes and qdrant answer is a parameter, and may depend on the calls before it.
use qdrant_operator.Common.{
  ℕ, Text, Bool, true, false, Option, none, some, List, [], ◌∷◌, ◌++◌, is_empty, if◌then◌else◌,
}
use qdrant_operator.Qdrant.{AliasAction, CollectionSpec, CollectionInfo}
use qdrant_operator.Api.Conditions.{ConditionType, ConditionLib, Reason}
use qdrant_operator.Api.Cluster.{QdrantCluster}
use qdrant_operator.Api.Collection.{
  CollectionPhase, ReshardStatus, QdrantCollectionStatus, QdrantCollection, target_collection_name,
}
use qdrant_operator.Pass.{minutes}

pub data CollectionCall : Type 0 where
  create_collection : Text → CollectionSpec → CollectionCall
  delete_collection : Text → CollectionCall
  update_aliases : List AliasAction → CollectionCall
  upsert_points : Text → List Text → CollectionCall
  update_status : QdrantCollectionStatus → CollectionCall
  update_object : QdrantCollection → CollectionCall
  event : Reason → CollectionCall

pub data Lookup : Type 0 where
  found : QdrantCluster → Lookup
  not_found failed : Lookup

-- A read is given the calls made before it; none is an error. `scroll_points` takes the collection and
-- the cursor, and returns the points and the next cursor.
pub record Inputs : Type 0 where
  pub now : ℕ
  pub conditions : ConditionLib
  pub cluster : Lookup
  pub get_collection : List CollectionCall → Text → Option CollectionInfo
  pub list_aliases : List CollectionCall → Option (List (Text × Text))
  pub scroll_points : List CollectionCall → Text → Text → Option (List Text × Option Text)
  pub accepts : List CollectionCall → CollectionCall → Bool

pub record CollectionPass : Type 0 where
  pub collection : QdrantCollection
  pub calls : List CollectionCall

pub record Outcome : Type 0 where
  pub pass : CollectionPass
  pub requeue_after : ℕ
  pub failed : Bool

abbrev pub called : CollectionPass → CollectionCall → CollectionPass
called p c = record p { calls = p.calls ++ (c ∷ []) }

abbrev pub set_status : CollectionPass → QdrantCollectionStatus → CollectionPass
set_status p s = let c = p.collection in record p { collection = record c { status = s } }

abbrev pub set_reshard : CollectionPass → Option ReshardStatus → CollectionPass
set_reshard p r = let s = p.collection.status in set_status p (record s { reshard = r })

abbrev pub put_condition : Inputs → CollectionPass → ConditionType → Bool → Reason → CollectionPass
put_condition inp p t value reason =
    let s = p.collection.status in
    set_status p (record s {
      conditions = inp.conditions.set_status_condition s.conditions (record {
        type = t;
        status = value;
        reason = reason;
        observed_generation = p.collection.generation;
      });
    })

abbrev pub requeue : CollectionPass → ℕ → Outcome
requeue p d = record { pass = p; requeue_after = d; failed = false }

abbrev pub fail : CollectionPass → Outcome
fail p = record { pass = p; requeue_after = 0; failed = true }

-- `r.Status().Update`, whose error ends the pass.
unfoldable pub commit : Inputs → CollectionPass → ℕ → Outcome
commit inp p d =
    let c = update_status p.collection.status in
    if inp.accepts p.calls c then requeue (called p c) d else fail (called p c)

unfoldable pub set_ready : Inputs → CollectionPass → ℕ → Outcome
set_ready inp p points =
    let s = p.collection.status in
    let q = set_status p (record s {
      phase = CollectionPhase.ready;
      points_count = points;
      observed_generation = p.collection.generation;
    }) in
    let r = put_condition inp q ConditionType.ready true Reason.ensured in
    commit inp (put_condition inp r ConditionType.degraded false Reason.healthy) (minutes 2)

-- The error of the status update is ignored.
unfoldable pub set_degraded : Inputs → CollectionPass → Reason → CollectionPass
set_degraded inp p reason =
    let s = p.collection.status in
    let q = set_status p (record s {
      phase = CollectionPhase.degraded;
      observed_generation = p.collection.generation;
    }) in
    let r = called (put_condition inp q ConditionType.degraded true reason) (event reason) in
    called r (update_status r.collection.status)

-- The collection that backs the object now.
unfoldable pub physical_name : QdrantCollection → Text
physical_name c =
    if is_empty c.status.active_collection
    then target_collection_name c
    else c.status.active_collection

-- A move or a drain of the cluster keeps a reshard from starting and from copying.
unfoldable pub cluster_move_active : QdrantCluster → Bool
cluster_move_active cluster = elim cluster.status.active_move [
  | some m ↦ true
  | none ↦ elim cluster.status.drain_status [ some d ↦ true | none ↦ false ]
]
