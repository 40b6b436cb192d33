-- ===== src/Drain/Allowed.antt =====
-- What a pass of the drain may ask of qdrant and of apiserver, and what it knows by then.
use qdrant_operator.Common.{
  ℕ, ◌-◌, Text, true, false, Option, none, some, List, [], ◌∷◌, ◌++◌, ◌≡◌, refl, Memᴰ, arith,
  Bool-cases, inl, inr, sym, ◌∙◌, ap, append-nil_right,
}
use qdrant_operator.Qdrant.{Peer, ShardInfo, CollectionClusterInfo}
use qdrant_operator.Api.Conditions.{ConditionLib, Reason}
use qdrant_operator.Api.Cluster.{ClusterStatus}
use qdrant_operator.Pass.{
  Call, Pass, Answers, remove_peer, update_replicas, update_status, event, set_condition,
}
use qdrant_operator.Rebalance.Observation.{Observation, find_text, find_id, all_shards_active}
use qdrant_operator.Rebalance.Moves.{PlannedMove}
use qdrant_operator.Rebalance.Executor.{move_call}
use qdrant_operator.Rebalance.Operations.{is_operation, operations, operations-called}
use qdrant_operator.Drain.Ordinals.{peer_ordinals}
use qdrant_operator.Drain.Cycle.{Inputs, hold, publish_drain_status, shrink_one, keepers_of}
use qdrant_operator.Drain.Safety.{IsDrainMove}

-- The peer of the highest ordinal, in a cluster whose peers all have one.
pub record IsLeaving (inp : Inputs) (obs : Observation) (target : Peer) : Type 0 where
  pub ordinals : List (ℕ × Peer)
  pub known : peer_ordinals inp.hostname obs.peers ≡ some ordinals
  pub highest : find_id (inp.live.spec_replicas - 1) ordinals ≡ some target
  pub shards_active : all_shards_active obs ≡ true

-- No collection has a shard on the peer.
abbrev pub IsEmptied : Observation → Peer → Type 0
IsEmptied obs target =
    (coll : Text) (cc : CollectionClusterInfo) (s : ShardInfo)
    → find_text coll obs.collections ≡ some cc
    → Memᴰ s cc.shards
    → s.peer_id ≡ target.id
    → ⊥

-- What a pass may do: nothing; one move of a plan that leads off the highest ordinal; the removal of
-- that peer once it is empty, alone or, where qdrant has accepted it, with one step down; or the step
-- down alone where no peer has the highest ordinal.
pub data IsAllowed (inp : Inputs) (obs : Observation) (keep : ℕ) : List Call → Type 0 where
  nothing : IsAllowed inp obs keep []
  one_move :
      (target : Peer) (leaving : IsLeaving inp obs target) (mv : PlannedMove)
      → IsDrainMove target.id (keepers_of keep leaving.ordinals) obs.collections mv
      → IsAllowed inp obs keep (move_call mv ∷ [])
  removal :
      (target : Peer)
      → IsLeaving inp obs target
      → IsEmptied obs target
      → IsAllowed inp obs keep (remove_peer target.id false ∷ [])
  removal_then_step :
      (target : Peer)
      → IsLeaving inp obs target
      → IsEmptied obs target
      → inp.answers.shard_operation (remove_peer target.id false) ≡ true
      → IsAllowed inp obs keep
          (remove_peer target.id false ∷ update_replicas (inp.live.spec_replicas - 1) ∷ [])
  step :
      (ordinals : List (ℕ × Peer))
      → peer_ordinals inp.hostname obs.peers ≡ some ordinals
      → find_id (inp.live.spec_replicas - 1) ordinals ≡ none
      → IsAllowed inp obs keep (update_replicas (inp.live.spec_replicas - 1) ∷ [])

-- A pass has added allowed operations to its calls.
abbrev pub IsGuarded : Inputs → Observation → ℕ → List Call → List Call → Type 0
IsGuarded inp obs keep before after =
    (ops : List Call) × (operations after ≡ operations before ++ ops) × IsAllowed inp obs keep ops

pub quiet :
    (inp : Inputs) (obs : Observation) (keep : ℕ) (before after : List Call)
    → operations after ≡ operations before
    → IsGuarded inp obs keep before after
quiet inp obs keep before after e = ([], e ∙ sym (append-nil_right (operations before)), nothing)

pub status-operations :
    (calls : List Call) (s : ClusterStatus)
    → operations (calls ++ (update_status s ∷ [])) ≡ operations calls
unfolding is_operation
status-operations calls s =
    ground (arith, operations-called calls (update_status s), append-nil_right (operations calls))

pub event-operations :
    (calls : List Call) (r : Reason) → operations (calls ++ (event r ∷ [])) ≡ operations calls
unfolding is_operation
event-operations calls r =
    ground (arith, operations-called calls (event r), append-nil_right (operations calls))

pub publish-operations :
    (now : ℕ) (p : Pass) (cur tgt : ℕ) (target : Option Peer) (moves : List PlannedMove)
    → operations (publish_drain_status now p cur tgt target moves).calls ≡ operations p.calls
unfolding publish_drain_status
publish-operations now p cur tgt target moves = status-operations p.calls _

pub hold-operations :
    (lib : ConditionLib) (p : Pass) (d : ℕ)
    → operations (hold lib p d).pass.calls ≡ operations p.calls
unfolding set_condition
hold-operations lib p d = status-operations p.calls _

pub shrink-operations :
    (answers : Answers) (p : Pass) (to : ℕ)
    → operations (shrink_one answers p to).pass.calls
      ≡ operations p.calls ++ (update_replicas to ∷ [])
unfolding shrink_one is_operation
shrink-operations answers p to = elim (Bool-cases (answers.replicas_update to)) [
  | inl done ↦ ground (
    arith,
    done,
    operations-called p.calls (update_replicas to),
    event-operations (p.calls ++ (update_replicas to ∷ [])) Reason.drain_shrunk,
  )
  | inr refused ↦ ground (arith, refused, operations-called p.calls (update_replicas to))
]

pub two_calls : (cs : List Call) (c d : Call) → (cs ++ (c ∷ [])) ++ (d ∷ []) ≡ cs ++ (c ∷ d ∷ [])
two_calls [] c d = refl
two_calls (x ∷ cs) c d = ap (◌∷◌ x) (two_calls cs c d)
