-- ===== src/Drain/Plan.antt =====
-- `planPeerDrain` of internal/controller/drain.go: what becomes of every shard of the peer that goes.
use qdrant_operator.Common.{
  ℕ, ◌+◌, ◌==◌, ltb, leb, Text, Bool, true, false, not, ◌&&◌, ◌||◌, Option, none, some, List, [],
  ◌∷◌, ◌++◌, map, length, any, filter, is_empty, if◌then◌else◌, sort, text_leb,
}
use qdrant_operator.Qdrant.{Peer, ShardInfo, CollectionClusterInfo}
use qdrant_operator.Rebalance.Observation.{find_text, keys, holds, is_member}
use qdrant_operator.Rebalance.Moves.{PlannedMove}
use qdrant_operator.Rebalance.Repair.{distinct}

pub record DrainPlan : Type 0 where
  pub moves : List PlannedMove
  pub blocked : Bool
  pub wait : Bool

abbrev pub Load : Type 0
Load = ℕ → ℕ

-- `load[peer]++` of a keeper.
abbrev pub bump : ℕ → Load → Load
bump pid load q = if q == pid then load q + 1 else load q

unfoldable pub load_shards : List Peer → List ShardInfo → Load → Load
load_shards keepers [] load = load
load_shards keepers (s ∷ shards) load =
    load_shards keepers shards (if is_member keepers s.peer_id then bump s.peer_id load else load)

unfoldable pub load_all : List Peer → List (Text × CollectionClusterInfo) → List Text → Load → Load
load_all keepers colls [] load = load
load_all keepers colls (name ∷ names) load =
    load_all keepers colls names
      (elim (find_text name colls) [ none ↦ load | some cc ↦ load_shards keepers cc.shards load ])

-- The least loaded keeper that does not hold the shard, the lowest id of equals.
unfoldable pub best_keeper : List ShardInfo → ℕ → Load → List Peer → Option Peer → Option Peer
best_keeper shards sid load [] best = best
best_keeper shards sid load (k ∷ keepers) best = best_keeper shards sid load keepers (
    if holds shards sid k.id then best else elim best [
      | none ↦ some k
      | some b ↦
          if ltb (load k.id) (load b.id) || (load k.id == load b.id && ltb k.id b.id)
          then some k
          else some b
    ])

-- `len(holders[shard])`: the peers that hold it, each once.
unfoldable pub holder_count : List ShardInfo → ℕ → ℕ
holder_count shards sid =
    length (distinct (map (λ (s : ShardInfo). s.peer_id) (filter (λ s. s.shard_id == sid) shards)))

pub record Draft : Type 0 where
  pub load : Load
  pub moves : List PlannedMove
  pub blocked : Bool

abbrev pub keep_move : Text → ℕ → ℕ → ℕ → PlannedMove
keep_move coll sid source target = record {
  collection = coll;
  shard_id = sid;
  source = source;
  target = target;
  drop = false;
  replicate = false;
  from_count = 0;
  to_count = 0;
}

abbrev pub drop_move : Text → ℕ → ℕ → PlannedMove
drop_move coll sid source = record {
  collection = coll;
  shard_id = sid;
  source = source;
  target = 0;
  drop = true;
  replicate = false;
  from_count = 0;
  to_count = 0;
}

-- One shard of the target: moved to a keeper, dropped where others hold it too, or blocking.
unfoldable pub place_shard : ℕ → List Peer → Text → List ShardInfo → ℕ → Draft → Draft
place_shard target keepers coll shards sid d = elim (best_keeper shards sid d.load keepers none) [
  | some k ↦ record {
    load = bump k.id d.load;
    moves = d.moves ++ (keep_move coll sid target k.id ∷ []);
    blocked = d.blocked;
  }
  | none ↦
      if leb 2 (holder_count shards sid)
      then record d { moves = d.moves ++ (drop_move coll sid target ∷ []) }
      else record d { blocked = true }
]

unfoldable pub place_shards : ℕ → List Peer → Text → List ShardInfo → List ShardInfo → Draft → Draft
place_shards target keepers coll shards [] d = d
place_shards target keepers coll shards (s ∷ rest) d =
    place_shards target keepers coll shards rest
      (if s.peer_id == target then place_shard target keepers coll shards s.shard_id d else d)

unfoldable pub place_all :
    ℕ → List Peer → List (Text × CollectionClusterInfo) → List Text → Draft → Draft
place_all target keepers colls [] d = d
place_all target keepers colls (name ∷ names) d =
    place_all target keepers colls names (elim (find_text name colls) [
      | none ↦ d
      | some cc ↦ place_shards target keepers name cc.shards cc.shards d
    ])

-- Some collection has a transfer in flight.
abbrev pub any_transfer : List (Text × CollectionClusterInfo) → Bool
any_transfer colls = any (λ e. not (is_empty e.1.transfers)) colls

abbrev pub no_load : Load
no_load _ = 0

unfoldable pub plan_peer_drain : Peer → List Peer → List (Text × CollectionClusterInfo) → DrainPlan
plan_peer_drain target keepers colls =
    let names = sort text_leb (keys colls) in
    let d =
      place_all target.id keepers colls names
        (record { load = load_all keepers colls names no_load; moves = []; blocked = false }) in
    if any_transfer colls
    then record { moves = []; blocked = false; wait = true }
    else record { moves = d.moves; blocked = d.blocked; wait = false }
