-- ===== src/Drain/Restraint.antt =====
-- What a whole pass of the drain may do, and when it stands still.
use qdrant_operator.Common.{
  ℕ, true, Option, none, some, List, [], ◌++◌, ◌≡◌, refl, arith, inl, inr, ◌⊎◌, subst, ◌∙◌, ap,
}
use qdrant_operator.Api.Conditions.{ConditionLib}
use qdrant_operator.Api.Spec.{ClusterSpec}
use qdrant_operator.Api.Cluster.{QdrantCluster}
use qdrant_operator.Pass.{Pass, set_status, set_condition}
use qdrant_operator.Rebalance.Observation.{Observation, transfers_in_flight}
use qdrant_operator.Rebalance.Executor.{
  Settlement, SettleState, busy, waiting, lost, settled, settle_record, settle_active_move,
}
use qdrant_operator.Rebalance.Operations.{operations}
use qdrant_operator.Rebalance.Issue.{settle-operations}
use qdrant_operator.Rebalance.Stepwise.{settled-calm}
use qdrant_operator.Drain.Cycle.{
  Inputs, publish_drain_status, reshard_active, drain_settled, drain_after, reconcile_drain_cycle,
}
use qdrant_operator.Drain.Allowed.{IsAllowed, IsGuarded, publish-operations, hold-operations}
use qdrant_operator.Drain.Guards.{settled-IsGuarded}
use qdrant_operator.Api.Collection.{QdrantCollection}

settle-spec :
    (lib : ConditionLib) (now : ℕ) (p : Pass) (obs : Observation)
    → (settle_active_move lib now p obs).pass.cluster.spec ≡ p.cluster.spec
unfolding settle_active_move settle_record set_condition
settle-spec lib now p obs = ground arith

observed : Inputs → Pass → Pass
observed inp p =
    let s = p.cluster.status in
    set_status p
      (record s { replicas = inp.live.replicas; ready_replicas = inp.live.ready_replicas })

after-IsGuarded :
    (lib : ConditionLib) (inp : Inputs) (p : Pass) (s : SettleState) (d : ℕ) (obs : Observation)
    → (operations (drain_after lib inp (record { pass = p; state = s; delay = d }) obs).pass.calls
        ≡ operations p.calls)
      ⊎ (s ≡ settled)
        × IsGuarded inp obs p.cluster.spec.replicas p.calls
            (drain_after lib inp (record { pass = p; state = s; delay = d }) obs).pass.calls
unfolding drain_after
after-IsGuarded lib inp p busy d obs = inl (publish-operations inp.now p _ _ none [])
after-IsGuarded lib inp p waiting d obs = inl (publish-operations inp.now p _ _ none [])
after-IsGuarded lib inp p lost d obs = inl (publish-operations inp.now p _ _ none [])
after-IsGuarded lib inp p settled d obs = inr (refl, settled-IsGuarded lib inp obs p)

-- A pass over an observed cluster adds only allowed operations, at most one move or one removal with
-- the step down that follows it; and none while a transfer is in flight.
pub drain-IsGuarded :
    (lib : ConditionLib) (inp : Inputs) (p : Pass) (obs : Observation)
    → (operations (reconcile_drain_cycle lib inp p (some obs)).pass.calls ≡ operations p.calls)
      ⊎ (transfers_in_flight obs ≡ 0)
        × IsGuarded inp obs p.cluster.spec.replicas p.calls
            (reconcile_drain_cycle lib inp p (some obs)).pass.calls
unfolding reconcile_drain_cycle observed
drain-IsGuarded lib inp p obs = elim (after-IsGuarded lib inp st.pass st.state st.delay obs) [
  | inl e ↦ inl (e ∙ settle-operations lib inp.now (observed inp p) obs)
  | inr (calm, (ops, e, ok)) ↦ inr (
    settled-calm lib inp.now (observed inp p) obs calm,
    (
      ops,
      e ∙ ap (λ cs. cs ++ ops) (settle-operations lib inp.now (observed inp p) obs),
      subst (λ (q : ClusterSpec). IsAllowed inp obs q.replicas ops)
          (settle-spec lib inp.now (observed inp p) obs) ok,
    ),
  )
]
  where
    st : Settlement
    st = settle_active_move lib inp.now (observed inp p) obs

settle-name :
    (lib : ConditionLib) (now : ℕ) (p : Pass) (obs : Observation)
    → (settle_active_move lib now p obs).pass.cluster.name ≡ p.cluster.name
unfolding settle_active_move settle_record set_condition
settle-name lib now p obs = ground arith

reshard-same :
    (qc qd : QdrantCluster) (cols : Option (List QdrantCollection))
    → qc.name ≡ qd.name
    → reshard_active qc cols ≡ reshard_active qd cols
unfolding reshard_active
reshard-same qc qd none e = refl
reshard-same qc qd (some cols) e = rw e refl

reshard-quiet :
    (lib : ConditionLib) (inp : Inputs) (p : Pass) (s : SettleState) (d : ℕ) (obs : Observation)
    → reshard_active p.cluster inp.collections ≡ true
    → operations (drain_after lib inp (record { pass = p; state = s; delay = d }) obs).pass.calls
      ≡ operations p.calls
unfolding drain_after drain_settled
reshard-quiet lib inp p busy d obs r = publish-operations inp.now p _ _ none []
reshard-quiet lib inp p waiting d obs r = publish-operations inp.now p _ _ none []
reshard-quiet lib inp p lost d obs r = publish-operations inp.now p _ _ none []
reshard-quiet lib inp p settled d obs r = rw r (publish-operations inp.now p _ _ none [])

-- A pass makes no operation where qdrant cannot be observed, nor while a listed collection of the
-- cluster is being resharded.
pub drain_stands_still :
    (lib : ConditionLib) (inp : Inputs) (p : Pass) (obs : Option Observation)
    → (obs ≡ none) ⊎ (reshard_active p.cluster inp.collections ≡ true)
    → operations (reconcile_drain_cycle lib inp p obs).pass.calls ≡ operations p.calls
unfolding reconcile_drain_cycle observed
drain_stands_still lib inp p none h =
    hold-operations lib
      (publish_drain_status inp.now p inp.live.spec_replicas p.cluster.spec.replicas none []) 0
    ∙ publish-operations inp.now p inp.live.spec_replicas p.cluster.spec.replicas none []
drain_stands_still lib inp p (some obs) (inl h) = absurd (ground (arith, h))
drain_stands_still lib inp p (some obs) (inr r) =
    reshard-quiet lib inp st.pass st.state st.delay obs (
      reshard-same st.pass.cluster p.cluster inp.collections
        (settle-name lib inp.now (observed inp p) obs)
      ∙ r)
    ∙ settle-operations lib inp.now (observed inp p) obs
  where
    st : Settlement
    st = settle_active_move lib inp.now (observed inp p) obs
