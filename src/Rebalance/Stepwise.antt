-- ===== src/Rebalance/Stepwise.antt =====
-- What one step of the rebalance lane sends to qdrant.
use qdrant_operator.Common.{
  ℕ, true, false, List, [], ◌∷◌, ◌++◌, ◌≡◌, refl, arith, All, Bool-cases, inl, inr, ◌⊎◌, sym, subst,
  ◌∙◌, ap,
}
use qdrant_operator.Api.Conditions.{ConditionLib}
use qdrant_operator.Pass.{Pass, Answers, set_condition}
use qdrant_operator.Rebalance.Observation.{Observation, transfers_in_flight, transitioning}
use qdrant_operator.Rebalance.Moves.{PlannedMove}
use qdrant_operator.Rebalance.Executor.{
  rebalance_enabled, SettleState, busy, waiting, lost, settled, Settlement, settle_record,
  settle_active_move, move_call, next_plan, publish_plan, after_settlement, reconcile_rebalance,
}
use qdrant_operator.Rebalance.Operations.{operations}
use qdrant_operator.Rebalance.Issue.{
  IsDue, IsFirstMove, next_plan-IsDue, settle-operations, execute-operations,
}

settle-enabled :
    (lib : ConditionLib) (now : ℕ) (p : Pass) (obs : Observation)
    → rebalance_enabled (settle_active_move lib now p obs).pass.cluster
      ≡ rebalance_enabled p.cluster
unfolding settle_active_move settle_record set_condition rebalance_enabled
settle-enabled lib now p obs = ground arith

pub settled-calm :
    (lib : ConditionLib) (now : ℕ) (p : Pass) (obs : Observation)
    → (settle_active_move lib now p obs).state ≡ settled
    → transfers_in_flight obs ≡ 0
unfolding settle_active_move
settled-calm lib now p obs = ground arith

-- What a settled or unsettled lane lets through.
abbrev IsThrough : ConditionLib → Answers → ℕ → Settlement → Observation → Type 0
IsThrough lib answers now st obs =
    (operations (after_settlement lib answers now st obs).pass.calls ≡ operations st.pass.calls)
    ⊎ ((st.state ≡ settled)
        × (transitioning obs ≡ false)
        × IsFirstMove (next_plan obs).0 st.pass.cluster st.pass.calls
            (after_settlement lib answers now st obs).pass.calls)

publish-enabled :
    (p : Pass) (plan : List PlannedMove)
    → rebalance_enabled (publish_plan p plan).cluster ≡ rebalance_enabled p.cluster
unfolding rebalance_enabled
publish-enabled p plan = refl

after-operations :
    (lib : ConditionLib) (answers : Answers) (now : ℕ) (p : Pass) (s : SettleState) (d : ℕ)
    (obs : Observation)
    → IsThrough lib answers now (record { pass = p; state = s; delay = d }) obs
unfolding after_settlement
after-operations lib answers now p busy d obs = inl refl
after-operations lib answers now p waiting d obs = inl refl
after-operations lib answers now p lost d obs = inl refl
after-operations lib answers now p settled d obs = elim (Bool-cases (transitioning obs)) [
  | inl moving ↦ inl (rw moving)
  | inr still ↦
      elim (execute-operations lib answers now (publish_plan p (next_plan obs).0) (next_plan obs).0
        (next_plan obs).1) [
          | inl e ↦ inl (rw (still, e))
          | inr (mv, rest, plan, on, e) ↦ inr (
            refl,
            still,
            (mv, rest, plan, sym (publish-enabled p (next_plan obs).0) ∙ on, rw (still, e)),
          )
        ]
]

-- Exactly one operation is made, the first move of the next plan.
abbrev pub IsOneOperation : ConditionLib → Answers → ℕ → Pass → Observation → Type 0
IsOneOperation lib answers now p obs =
    (mv : PlannedMove) × (rest : List PlannedMove) × ((next_plan obs).0 ≡ mv ∷ rest)
    × (operations (reconcile_rebalance lib answers now p obs).pass.calls
        ≡ operations p.calls ++ (move_call mv ∷ []))
    × IsDue obs (next_plan obs).1 mv
    × (transfers_in_flight obs ≡ 0)
    × (transitioning obs ≡ false)
    × (rebalance_enabled p.cluster ≡ true)

-- A rebalance step makes no shard operation, or exactly one: the first move of the next plan, with
-- all that a move of its kind promises. It makes none while a transfer is in flight or a shard is in
-- transition, and none where rebalancing is disabled.
pub one_safe_operation :
    (lib : ConditionLib) (answers : Answers) (now : ℕ) (p : Pass) (obs : Observation)
    → (operations (reconcile_rebalance lib answers now p obs).pass.calls ≡ operations p.calls)
      ⊎ IsOneOperation lib answers now p obs
unfolding reconcile_rebalance
one_safe_operation lib answers now p obs =
    elim (after-operations lib answers now st.pass st.state st.delay obs) [
      | inl e ↦ inl (e ∙ settle-operations lib now p obs)
      | inr (calm, still, (mv, rest, plan, on, e)) ↦ inr (
        mv,
        rest,
        plan,
        e ∙ ap (λ cs. cs ++ (move_call mv ∷ [])) (settle-operations lib now p obs),
        (subst (All (IsDue obs (next_plan obs).1)) plan (next_plan-IsDue obs)).0,
        settled-calm lib now p obs calm,
        still,
        sym (settle-enabled lib now p obs) ∙ on,
      )
    ]
  where
    st : Settlement
    st = settle_active_move lib now p obs
