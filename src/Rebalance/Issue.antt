-- ===== src/Rebalance/Issue.antt =====
-- What a rebalance step sends to qdrant: nothing, or the one operation that its plan calls for, after
-- the status has said so.
use qdrant_operator.Common.{
  ℕ, true, false, some, List, [], ◌∷◌, ◌++◌, ◌≡◌, refl, arith, All, All-map, Bool-cases, List-cases,
  inl, inr, ◌⊎◌, sym, subst, append-nil_right, Option-cases,
}
use qdrant_operator.Api.Conditions.{ConditionType, ConditionLib, Reason}
use qdrant_operator.Api.Cluster.{Kind, ClusterStatus, QdrantCluster}
use qdrant_operator.Pass.{Pass, Answers, update_status, event, set_condition, Call}
use qdrant_operator.Rebalance.Observation.{Observation}
use qdrant_operator.Rebalance.Moves.{PlannedMove}
use qdrant_operator.Rebalance.Planner.{plan_rebalance}
use qdrant_operator.Rebalance.Repair.{plan_replications, plan_dead_drops}
use qdrant_operator.Rebalance.Executor.{
  settle_record, settle_active_move, move_call, move_record, issue_call, issue_active_move,
  next_plan, issued_reason, execute_plan, clear_move_failed, rebalance_enabled,
}
use qdrant_operator.Rebalance.Operations.{
  is_operation, operations, operations-called, is_operation-move_call,
}
use qdrant_operator.Rebalance.SizeSafety.{IsBalancing, plan_rebalance_safe}
use qdrant_operator.Rebalance.RepairSafety.{
  IsReplication, IsDeadDrop, plan_replications_safe, plan_dead_drops_safe,
}

-- What a move of each kind promises, and which plans had to be empty for it.
abbrev pub IsDue : Observation → Kind → PlannedMove → Type 0
IsDue obs Kind.replicate m = IsReplication obs m
IsDue obs Kind.dead_repair m = IsDeadDrop obs m × (plan_replications obs ≡ [])
IsDue obs Kind.rebalance m =
    IsBalancing obs m × (plan_replications obs ≡ []) × (plan_dead_drops obs ≡ [])
IsDue obs _ m = ⊥

replicate_first :
    (obs : Observation) (m : PlannedMove) (ms : List PlannedMove)
    → plan_replications obs ≡ m ∷ ms
    → next_plan obs ≡ (m ∷ ms, Kind.replicate)
unfolding next_plan
replicate_first obs m ms e = ground (arith, e)

repair_second :
    (obs : Observation) (m : PlannedMove) (ms : List PlannedMove)
    → plan_replications obs ≡ []
    → plan_dead_drops obs ≡ m ∷ ms
    → next_plan obs ≡ (m ∷ ms, Kind.dead_repair)
unfolding next_plan
repair_second obs m ms e d = ground (arith, e, d)

balance_last :
    (obs : Observation)
    → plan_replications obs ≡ []
    → plan_dead_drops obs ≡ []
    → next_plan obs ≡ (plan_rebalance obs, Kind.rebalance)
unfolding next_plan
balance_last obs e d = ground (arith, e, d)

-- The next plan keeps the order of repair: a replication if any is possible; else the removal of dead
-- replicas; and balancing only when both have nothing to do.
pub next_plan-IsDue : (obs : Observation) → All (IsDue obs (next_plan obs).1) (next_plan obs).0
next_plan-IsDue obs = elim (List-cases (plan_replications obs)) [
  | inr (m, ms, e) ↦
      subst (λ (r : List PlannedMove × Kind). All (IsDue obs r.1) r.0)
        (sym (replicate_first obs m ms e))
        (subst (All (IsReplication obs)) e (plan_replications_safe obs))
  | inl e ↦ elim (List-cases (plan_dead_drops obs)) [
    | inr (m, ms, d) ↦
        subst (λ (r : List PlannedMove × Kind). All (IsDue obs r.1) r.0)
          (sym (repair_second obs m ms e d))
          (All-map (m ∷ ms) (λ k h. (h, e))
            (subst (All (IsDeadDrop obs)) d (plan_dead_drops_safe obs)))
    | inl d ↦
        subst (λ (r : List PlannedMove × Kind). All (IsDue obs r.1) r.0)
          (sym (balance_last obs e d))
          (All-map (plan_rebalance obs) (λ k h. (h, e, d)) (plan_rebalance_safe obs))
  ]
]

pub settle-operations :
    (lib : ConditionLib) (now : ℕ) (p : Pass) (obs : Observation)
    → operations (settle_active_move lib now p obs).pass.calls ≡ operations p.calls
unfolding settle_active_move settle_record set_condition is_operation
settle-operations lib now p obs = ground (
  arith,
  operations-called p.calls (event Reason.move_failed),
  append-nil_right (operations p.calls),
)

-- A call was made after the status with the move's record had been accepted.
pub record IsIssue (lib : ConditionLib) (answers : Answers) (now : ℕ) (p q : Pass)
    (mv : PlannedMove) (kind : Kind) : Type 0 where
  pub published : ClusterStatus
  pub record_is : published.active_move ≡ some (move_record now mv kind)
  pub accepted : answers.status_update published ≡ true
  pub outcome : Reason
  pub trace :
      q.calls
      ≡ ((p.calls ++ (update_status published ∷ [])) ++ (move_call mv ∷ [])) ++ (event outcome ∷ [])

-- A status with the record of the move was sent and refused, and nothing else was called.
abbrev pub IsRefused : Answers → ℕ → Pass → Pass → PlannedMove → Kind → Type 0
IsRefused answers now p q mv kind =
    (s : ClusterStatus) × (s.active_move ≡ some (move_record now mv kind))
    × (answers.status_update s ≡ false)
    × (q.calls ≡ p.calls ++ (update_status s ∷ []))

-- Issuing a move writes the status first, with the record of the move as its active move. If that is
-- refused nothing else is called; if it is accepted, exactly the move's operation and one event follow.
pub IsIssue-cases :
    (lib : ConditionLib) (answers : Answers) (now : ℕ) (p : Pass) (mv : PlannedMove) (kind : Kind)
    → IsRefused answers now p (issue_active_move lib answers now p mv kind).0 mv kind
      ⊎ IsIssue lib answers now p (issue_active_move lib answers now p mv kind).0 mv kind
unfolding issue_active_move issue_call set_condition
IsIssue-cases lib answers now p mv kind = elim (Bool-cases (answers.status_update published)) [
  | inr denied ↦ inl (published, refl, denied, ground (denied, arith))
  | inl ok ↦ elim (Bool-cases (answers.shard_operation (move_call mv))) [
    | inr refused ↦ inr (record {
      published = published;
      record_is = refl;
      accepted = ok;
      outcome = Reason.move_failed;
      trace = ground (ok, refused, arith);
    })
    | inl done ↦ inr (record {
      published = published;
      record_is = refl;
      accepted = ok;
      outcome = issued_reason mv;
      trace = ground (ok, done, arith);
    })
  ]
]
  where
    published : ClusterStatus
    published =
        let s = p.cluster.status in record s { active_move = some (move_record now mv kind) }

status_only :
    (calls : List Call) (s : ClusterStatus)
    → operations (calls ++ (update_status s ∷ [])) ≡ operations calls
unfolding is_operation
status_only calls s =
    ground (arith, operations-called calls (update_status s), append-nil_right (operations calls))

one_call :
    (calls : List Call) (s : ClusterStatus) (mv : PlannedMove) (r : Reason)
    → operations (((calls ++ (update_status s ∷ [])) ++ (move_call mv ∷ [])) ++ (event r ∷ []))
      ≡ operations calls ++ (move_call mv ∷ [])
unfolding is_operation
one_call calls s mv r = ground (
  arith,
  operations-called ((calls ++ (update_status s ∷ [])) ++ (move_call mv ∷ [])) (event r),
  operations-called (calls ++ (update_status s ∷ [])) (move_call mv),
  status_only calls s,
  is_operation-move_call mv,
  append-nil_right (operations calls ++ (move_call mv ∷ [])),
)

-- A run of the executor adds the one operation of a plan's first move, with rebalancing enabled.
abbrev pub IsFirstMove : List PlannedMove → QdrantCluster → List Call → List Call → Type 0
IsFirstMove plan qc before after =
    (mv : PlannedMove) × (rest : List PlannedMove) × (plan ≡ mv ∷ rest)
    × (rebalance_enabled qc ≡ true)
    × (operations after ≡ operations before ++ (move_call mv ∷ []))

pub issue-operations :
    (lib : ConditionLib) (answers : Answers) (now : ℕ) (p : Pass) (mv : PlannedMove) (kind : Kind)
    → (operations (issue_active_move lib answers now p mv kind).0.calls ≡ operations p.calls)
      ⊎ (operations (issue_active_move lib answers now p mv kind).0.calls
          ≡ operations p.calls ++ (move_call mv ∷ []))
issue-operations lib answers now p mv kind = elim (IsIssue-cases lib answers now p mv kind) [
  | inl (s, r, d, e) ↦ inl (rw (e, status_only p.calls s))
  | inr i ↦ inr (rw (i.trace, one_call p.calls i.published mv i.outcome))
]

clear-calls : (lib : ConditionLib) (p : Pass) → (clear_move_failed lib p).calls ≡ p.calls
unfolding clear_move_failed set_condition
clear-calls lib p =
    elim (Option-cases
      (lib.find_status_condition p.cluster.status.conditions ConditionType.degraded)) [
        | inl e ↦ ground (arith, e)
        | inr (c, e) ↦ ground (arith, e)
      ]

pub execute-operations :
    (lib : ConditionLib) (answers : Answers) (now : ℕ) (p : Pass) (plan : List PlannedMove)
    (kind : Kind)
    → (operations (execute_plan lib answers now p plan kind).pass.calls ≡ operations p.calls)
      ⊎ IsFirstMove plan p.cluster p.calls (execute_plan lib answers now p plan kind).pass.calls
unfolding execute_plan
execute-operations lib answers now p [] kind = inl (rw (clear-calls lib p))
execute-operations lib answers now p (mv ∷ rest) kind =
    elim (Bool-cases (rebalance_enabled p.cluster)) [
      | inr off ↦ inl (rw off)
      | inl on ↦ elim (issue-operations lib answers now p mv kind) [
        | inl e ↦ inl (rw (on, e))
        | inr e ↦ inr (mv, rest, refl, on, rw (on, e))
      ]
    ]
