-- ===== src/Rebalance/Executor.antt =====
-- The executor of internal/controller/rebalance.go: completion and loss of the one move in flight,
-- publication before issue, and the step that picks what to do next.
use qdrant_operator.Common.{
  ℕ, ◌-◌, ltb, Bool, true, false, not, ◌&&◌, Option, none, some, List, [], ◌∷◌, map, take,
  if◌then◌else◌, parse_uint, format_uint,
}
use qdrant_operator.Api.Conditions.{ConditionLib, Condition, Reason}
use qdrant_operator.Api.Conditions
use qdrant_operator.Api.Cluster.{Phase, Kind, MoveStatus, QdrantCluster}
use qdrant_operator.Pass.{
  Call, Pass, Answers, move_shard, replicate_shard, drop_replica, update_status, event, called,
  set_status, set_condition, seconds, minutes,
}
use qdrant_operator.Rebalance.Observation.{
  Observation, find_text, transfers_in_flight, transitioning, holds, holds_active,
}
use qdrant_operator.Rebalance.Moves.{PlannedMove, move_string}
use qdrant_operator.Rebalance.Planner.{plan_rebalance}
use qdrant_operator.Rebalance.Repair.{plan_replications, plan_dead_drops}
use qdrant_operator.Rebalance.Backoff.{backoff, add_int32}

unfoldable pub rebalance_enabled : QdrantCluster → Bool
rebalance_enabled qc = elim qc.spec.rebalance [
  | none ↦ true
  | some r ↦ elim r.enabled [ none ↦ true | some b ↦ b ]
]

abbrev pub is_replicate : Kind → Bool
is_replicate Kind.replicate = true
is_replicate _ = false

-- Completion is read off the placement: a drop is done when the source holds the shard no more, a
-- replication when the target is active, a move when both are so.
unfoldable pub active_move_completed : Observation → MoveStatus → Bool
active_move_completed obs am = elim (find_text am.collection obs.collections) [
  | none ↦ false
  | some cc ↦
      let from_holds = holds cc.shards am.shard_id (parse_uint am.from_peer) in
      let to_active = holds_active cc.shards am.shard_id (parse_uint am.to_peer) in
      if am.drop
      then not from_holds
      else (if is_replicate am.kind then to_active else to_active && not from_holds)
]

pub data SettleState : Type 0 where
  busy waiting lost settled : SettleState

abbrev pub move_appear_deadline : ℕ
move_appear_deadline = seconds 60

-- `am.IssuedAt != nil && time.Since(am.IssuedAt.Time) < moveAppearDeadline`.
abbrev pub is_recent : ℕ → Option ℕ → Bool
is_recent now none = false
is_recent now (some t) = ltb (now - t) move_appear_deadline

pub record Settlement : Type 0 where
  pub pass : Pass
  pub state : SettleState
  pub delay : ℕ

abbrev pub clear_move : Pass → ℕ → Pass
clear_move p level =
    let s = p.cluster.status in set_status p (record s { active_move = none; move_backoff = level })

unfoldable pub settle_record : ConditionLib → ℕ → Pass → Observation → MoveStatus → Settlement
settle_record lib now p obs am =
    if active_move_completed obs am
    then record {
      pass =
          set_condition lib (clear_move p 0) Conditions.ConditionType.degraded false
            Conditions.Reason.move_completed;
      state = settled;
      delay = 0;
    }
    else if is_recent now am.issued_at
    then record { pass = p; state = waiting; delay = seconds 5 }
    else let level = add_int32 p.cluster.status.move_backoff 1 in
      record {
        pass =
            called
              (set_condition lib (clear_move p level) Conditions.ConditionType.degraded true
                Conditions.Reason.move_failed)
              (event Conditions.Reason.move_failed);
        state = lost;
        delay = backoff level;
      }

unfoldable pub settle_active_move : ConditionLib → ℕ → Pass → Observation → Settlement
settle_active_move lib now p obs =
    if ltb 0 (transfers_in_flight obs)
    then record { pass = p; state = busy; delay = seconds 10 }
    else elim p.cluster.status.active_move [
      | none ↦ record { pass = p; state = settled; delay = 0 }
      | some am ↦ settle_record lib now p obs am
    ]

unfoldable pub move_call : PlannedMove → Call
move_call mv =
    if mv.drop
    then drop_replica mv.collection mv.shard_id mv.source
    else if mv.replicate
    then replicate_shard mv.collection mv.shard_id mv.source mv.target
    else move_shard mv.collection mv.shard_id mv.source mv.target

abbrev pub issued_reason : PlannedMove → Reason
issued_reason mv =
    if mv.drop
    then Conditions.Reason.replica_drop_issued
    else if mv.replicate
    then Conditions.Reason.shard_replicate_issued
    else Conditions.Reason.shard_move_issued

unfoldable pub move_record : ℕ → PlannedMove → Kind → MoveStatus
move_record now mv kind = record {
  kind = kind;
  collection = mv.collection;
  shard_id = mv.shard_id;
  from_peer = format_uint mv.source;
  to_peer = if mv.drop then [] else format_uint mv.target;
  drop = mv.drop;
  issued_at = some now;
}

-- After the record is published: the operation itself, and the lane cleared if it is refused.
unfoldable pub issue_call : ConditionLib → Answers → Pass → PlannedMove → Pass × ℕ
issue_call lib answers p mv =
    let q = called p (move_call mv) in
    let level = add_int32 q.cluster.status.move_backoff 1 in
    if answers.shard_operation (move_call mv)
    then (called q (event (issued_reason mv)), seconds 10)
    else (
      called
          (set_condition lib (clear_move q level) Conditions.ConditionType.degraded true
            Conditions.Reason.move_failed)
          (event Conditions.Reason.move_failed),
      backoff level,
    )

unfoldable pub issue_active_move : ConditionLib → Answers → ℕ → Pass → PlannedMove → Kind → Pass × ℕ
issue_active_move lib answers now p mv kind =
    let s = p.cluster.status in
    let published = record s { active_move = some (move_record now mv kind) } in
    let q = called (set_status p published) (update_status published) in
    if answers.status_update published then issue_call lib answers q mv else (q, seconds 5)

-- The reason is one of the executor's own.
abbrev names_move_failed : Reason → Bool
names_move_failed Conditions.Reason.move_failed = true
names_move_failed _ = false

abbrev is_move_failed : Condition → Bool
is_move_failed c = c.status && names_move_failed c.reason

unfoldable pub clear_move_failed : ConditionLib → Pass → Pass
clear_move_failed lib p =
    let s = p.cluster.status in
    elim (lib.find_status_condition p.cluster.status.conditions Conditions.ConditionType.degraded) [
      | none ↦ p
      | some c ↦
          if is_move_failed c
          then set_condition lib (set_status p (record s { move_backoff = 0 }))
              Conditions.ConditionType.degraded false Conditions.Reason.balanced
          else p
    ]

-- Repair before removal before balance: the first plan with anything to do.
unfoldable pub next_plan : Observation → List PlannedMove × Kind
next_plan obs = elim (plan_replications obs) [
  | m ∷ ms ↦ (m ∷ ms, Kind.replicate)
  | [] ↦ elim (plan_dead_drops obs) [
    | m ∷ ms ↦ (m ∷ ms, Kind.dead_repair)
    | [] ↦ (plan_rebalance obs, Kind.rebalance)
  ]
]

pub record Step : Type 0 where
  pub pass : Pass
  pub phase : Phase
  pub delay : ℕ

abbrev pub publish_plan : Pass → List PlannedMove → Pass
publish_plan p plan =
    let s = p.cluster.status in
    set_status p (record s { planned_moves = map move_string (take 10 plan) })

unfoldable pub execute_plan : ConditionLib → Answers → ℕ → Pass → List PlannedMove → Kind → Step
execute_plan lib answers now p [] kind = record {
  pass = clear_move_failed lib p;
  phase = Phase.running;
  delay = minutes 5;
}
execute_plan lib answers now p (mv ∷ plan) kind =
    let issued = issue_active_move lib answers now p mv kind in
    if rebalance_enabled p.cluster
    then record { pass = issued.0; phase = Phase.rebalancing; delay = issued.1 }
    else record { pass = p; phase = Phase.running; delay = minutes 2 }

abbrev pub plan_and_execute : ConditionLib → Answers → ℕ → Pass → Observation → Step
plan_and_execute lib answers now p obs =
    let plan = next_plan obs in execute_plan lib answers now (publish_plan p plan.0) plan.0 plan.1

unfoldable pub after_settlement : ConditionLib → Answers → ℕ → Settlement → Observation → Step
after_settlement lib answers now st obs = elim st.state [
  | settled ↦
      if transitioning obs
      then record { pass = st.pass; phase = Phase.rebalancing; delay = seconds 10 }
      else plan_and_execute lib answers now st.pass obs
  | _ ↦ record { pass = st.pass; phase = Phase.rebalancing; delay = st.delay }
]

unfoldable pub reconcile_rebalance : ConditionLib → Answers → ℕ → Pass → Observation → Step
reconcile_rebalance lib answers now p obs =
    after_settlement lib answers now (settle_active_move lib now p obs) obs
