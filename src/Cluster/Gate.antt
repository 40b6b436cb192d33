-- ===== src/Cluster/Gate.antt =====
-- When the status of a cluster may move shards.
use qdrant_operator.Common.{
  ℕ, ◌==◌, ltb, true, false, ◌&&◌, Option, none, some, List, [], ◌∷◌, ◌++◌, ◌≡◌, refl, ◌∙◌, ap,
  arith, length, Bool-cases, Option-cases, inl, inr, ◌⊎◌,
}
use qdrant_operator.Api.Spec.{ClusterSpec}
use qdrant_operator.Api.Cluster.{ClusterStatus, QdrantCluster}
use qdrant_operator.Pass.{Call, Pass, set_condition, with_status}
use qdrant_operator.Rebalance.Observation.{Observation, transfers_in_flight, transitioning}
use qdrant_operator.Rebalance.Moves.{PlannedMove}
use qdrant_operator.Rebalance.Executor.{move_call, next_plan, reconcile_rebalance}
use qdrant_operator.Rebalance.Operations.{operations}
use qdrant_operator.Rebalance.Issue.{IsDue}
use qdrant_operator.Rebalance.Stepwise.{one_safe_operation}
use qdrant_operator.Upgrade.{rollout_in_progress}
use qdrant_operator.Drain.Allowed.{status-operations}
use qdrant_operator.Cluster.Observe.{observe}
use qdrant_operator.Cluster.Status.{
  StatusInputs, is_rebalancing, run_rebalance, await_peers, choose_phase, commit_status,
  reconcile_status,
}

-- A pass has made the one operation of a rebalance step, with no rollout in progress, all pods ready
-- and as many peers observed as replicas are wanted.
pub record IsGated (inp : StatusInputs) (replicas : ℕ) (before : List Call)
    (obs : Option Observation) (after : List Call) : Type 0 where
  pub seen : Observation
  pub observed : obs ≡ some seen
  pub settled_revision : rollout_in_progress (some inp.live) ≡ false
  pub pods_ready : inp.live.ready_replicas ≡ replicas
  pub peers_joined : length seen.peers ≡ replicas
  pub move : PlannedMove
  pub rest : List PlannedMove
  pub first_of_plan : (next_plan seen).0 ≡ move ∷ rest
  pub due : IsDue seen (next_plan seen).1 move
  pub one : operations after ≡ operations before ++ (move_call move ∷ [])
  pub calm : (transfers_in_flight seen ≡ 0) × (transitioning seen ≡ false)

run-calls :
    (inp : StatusInputs) (p : Pass) (o : Observation)
    → (run_rebalance inp p o).0.calls
      ≡ (reconcile_rebalance inp.conditions inp.answers inp.now p o).pass.calls
unfolding run_rebalance set_condition
run-calls inp p o =
    elim (Bool-cases
      (is_rebalancing (reconcile_rebalance inp.conditions inp.answers inp.now p o).phase)) [
        | inl e ↦ rw e refl
        | inr e ↦ rw e refl
      ]

await-calls : (inp : StatusInputs) (p : Pass) → (await_peers inp p).0.calls ≡ p.calls
unfolding await_peers set_condition
await-calls inp p = refl

choose-IsGated :
    (inp : StatusInputs) (p : Pass) (obs : Option Observation)
    → (operations (choose_phase inp p obs).0.calls ≡ operations p.calls)
      ⊎ IsGated inp p.cluster.spec.replicas p.calls obs (choose_phase inp p obs).0.calls
unfolding choose_phase set_condition
choose-IsGated inp p obs = elim (Bool-cases (rollout_in_progress (some inp.live))) [
  | inl busy ↦ inl (rw busy refl)
  | inr calm ↦
      elim (Bool-cases
        (inp.live.ready_replicas == p.cluster.spec.replicas && ltb 0 p.cluster.spec.replicas)) [
          | inr waiting ↦ inl (rw (calm, waiting) refl)
          | inl ready ↦ observed obs calm ready
        ]
]
  where
    observed :
        (obs : Option Observation)
        → rollout_in_progress (some inp.live) ≡ false
        → (inp.live.ready_replicas == p.cluster.spec.replicas && ltb 0 p.cluster.spec.replicas)
          ≡ true
        → (operations (choose_phase inp p obs).0.calls ≡ operations p.calls)
          ⊎ IsGated inp p.cluster.spec.replicas p.calls obs (choose_phase inp p obs).0.calls
    observed none calm ready = inl (rw (calm, ready) (ap operations (await-calls inp p)))
    observed (some o) calm ready = elim (Bool-cases (length o.peers == p.cluster.spec.replicas)) [
      | inr missing ↦ inl (rw (calm, ready, missing) (ap operations (await-calls inp p)))
      | inl joined ↦ elim (one_safe_operation inp.conditions inp.answers inp.now p o) [
        | inl e ↦ inl (rw (calm, ready, joined) (ap operations (run-calls inp p o) ∙ e))
        | inr (mv, rest, plan, e, due, still, steady, on) ↦ inr (record {
          seen = o;
          observed = refl;
          settled_revision = calm;
          pods_ready = ground (arith, ready);
          peers_joined = ground (arith, joined);
          move = mv;
          rest = rest;
          first_of_plan = plan;
          due = due;
          one = rw (calm, ready, joined) (ap operations (run-calls inp p o) ∙ e);
          calm = (still, steady);
        })
      ]
    ]

commit-operations :
    (inp : StatusInputs) (before : ClusterStatus) (r : Pass × ℕ)
    → operations (commit_status inp before r).pass.calls ≡ operations r.0.calls
unfolding commit_status
commit-operations inp before r = elim (Bool-cases (inp.same_status before r.0.cluster.status)) [
  | inl same ↦ rw same refl
  | inr new ↦ elim (Bool-cases (inp.answers.status_update r.0.cluster.status)) [
    | inl ok ↦ rw (new, ok) (status-operations r.0.calls r.0.cluster.status)
    | inr bad ↦ rw (new, bad) (status-operations r.0.calls r.0.cluster.status)
  ]
]

observe-spec : (inp : StatusInputs) (qc : QdrantCluster) → (observe inp.reads qc).0.spec ≡ qc.spec
unfolding observe
observe-spec inp qc = elim (Option-cases inp.reads.cluster_info) [
  | inl e ↦ ground (arith, e)
  | inr (ci, e) ↦ elim (Option-cases inp.reads.list_collections) [
    | inl f ↦ ground (arith, e, f)
    | inr (names, f) ↦ ground (arith, e, f)
  ]
]

-- The cluster with the numbers of the live set in its status, as it is when qdrant is observed.
abbrev pub refreshed : StatusInputs → QdrantCluster → QdrantCluster
refreshed inp qc =
    let s = qc.status in
    with_status qc (record s {
      replicas = inp.live_replicas;
      ready_replicas = inp.live.ready_replicas;
      selector = inp.selector;
      observed_generation = qc.generation;
      drain_status = none;
    })

-- A status pass makes no shard operation, or the one of a rebalance step: the first move of the next
-- plan for what the pass has observed, with all that its kind promises; and then no rollout is in
-- progress, all pods are ready, as many peers were observed as replicas are wanted, no transfer is in
-- flight and no shard is in transition.
pub status_gate :
    (inp : StatusInputs) (p : Pass)
    → (operations (reconcile_status inp p).pass.calls ≡ operations p.calls)
      ⊎ IsGated inp p.cluster.spec.replicas p.calls
          (observe inp.reads (refreshed inp p.cluster)).1
          (reconcile_status inp p).pass.calls
unfolding reconcile_status
status_gate inp p = elim (choose-IsGated inp q (observe inp.reads qc).1) [
  | inl e ↦ inl (commit-operations inp p.cluster.status _ ∙ e)
  | inr g ↦ inr (record {
    seen = g.seen;
    observed = g.observed;
    settled_revision = g.settled_revision;
    pods_ready = g.pods_ready ∙ ap (λ (c : ClusterSpec). c.replicas) (observe-spec inp qc);
    peers_joined = g.peers_joined ∙ ap (λ (c : ClusterSpec). c.replicas) (observe-spec inp qc);
    move = g.move;
    rest = g.rest;
    first_of_plan = g.first_of_plan;
    due = g.due;
    one = commit-operations inp p.cluster.status _ ∙ g.one;
    calm = g.calm;
  })
]
  where
    qc : QdrantCluster
    qc = refreshed inp p.cluster

    q : Pass
    q = record p { cluster = (observe inp.reads qc).0 }
