-- ===== src/Cluster/Steps.antt =====
-- What a pass of the status or of the drain writes to the number of pods: the status nothing, the drain
-- one step down.
use qdrant_operator.Common.{
  ℕ, ◌-◌, false, ◌≡◌, refl, sym, subst, Option, none, some, List, [], ◌∷◌, arith, All, Bool-cases,
  inl, inr,
}
use qdrant_operator.Api.Conditions.{ConditionLib}
use qdrant_operator.Api.Cluster.{QdrantCluster}
use qdrant_operator.Pass.{
  Call, update_status, move_shard, replicate_shard, drop_replica, remove_peer, update_replicas,
  event,
}
use qdrant_operator.Rebalance.Observation.{Observation}
use qdrant_operator.Rebalance.Moves.{PlannedMove}
use qdrant_operator.Rebalance.Executor.{move_call}
use qdrant_operator.Rebalance.Operations.{is_operation, operations}
use qdrant_operator.Drain.Cycle
use qdrant_operator.Drain.Cycle.{reconcile_drain_cycle}
use qdrant_operator.Drain.Allowed.{IsAllowed, nothing, one_move, removal, removal_then_step, step}
use qdrant_operator.Drain.Restraint.{drain-IsGuarded, drain_stands_still}
use qdrant_operator.Cluster.Status.{StatusInputs, reconcile_status}
use qdrant_operator.Cluster.Gate.{status_gate}
use qdrant_operator.Cluster.Reconcile.{start}

module _ (Q : ℕ → Type 0) where
  -- A call that writes the number of pods writes one that `Q` allows.
  abbrev pub IsStepped : Call → Type 0
  IsStepped (update_replicas n) = Q n
  IsStepped _ = Unit

  quiet-IsStepped : (c : Call) → is_operation c ≡ false → IsStepped c
  unfolding is_operation
  quiet-IsStepped (update_status s) h = tt
  quiet-IsStepped (move_shard c s a b) h = tt
  quiet-IsStepped (replicate_shard c s a b) h = tt
  quiet-IsStepped (drop_replica c s p) h = tt
  quiet-IsStepped (remove_peer p f) h = tt
  quiet-IsStepped (update_replicas n) h = absurd (ground arith)
  quiet-IsStepped (event r) h = tt

  All-calls : (calls : List Call) → All IsStepped (operations calls) → All IsStepped calls
  unfolding operations
  All-calls [] h = tt
  All-calls (c ∷ calls) h = elim (Bool-cases (is_operation c)) [
    | inl e ↦ let k = (rw e at h) in (k.0, All-calls calls k.1)
    | inr e ↦ (quiet-IsStepped c e, All-calls calls (rw e at h))
  ]

  move_call-IsStepped : (mv : PlannedMove) → IsStepped (move_call mv)
  unfolding move_call
  move_call-IsStepped mv = elim (Bool-cases mv.drop) [
    | inl d ↦ rw d tt
    | inr d ↦ elim (Bool-cases mv.replicate) [ inl r ↦ rw (d, r) tt | inr r ↦ rw (d, r) tt ]
  ]

  pub status-IsStepped :
      (si : StatusInputs) (qc : QdrantCluster)
      → All IsStepped (reconcile_status si (start qc)).pass.calls
  unfolding operations
  status-IsStepped si qc = All-calls _ (elim (status_gate si (start qc)) [
    | inl e ↦ subst (All IsStepped) (sym e) tt
    | inr g ↦ subst (All IsStepped) (sym g.one) (move_call-IsStepped g.move, tt)
  ])

  allowed-IsStepped :
      (inp : Cycle.Inputs) (obs : Observation) (keep : ℕ) (ops : List Call)
      → Q (inp.live.spec_replicas - 1)
      → IsAllowed inp obs keep ops
      → All IsStepped ops
  allowed-IsStepped inp obs keep ops q nothing = tt
  allowed-IsStepped inp obs keep ops q (one_move target l mv d) = (move_call-IsStepped mv, tt)
  allowed-IsStepped inp obs keep ops q (removal target l z) = (tt, tt)
  allowed-IsStepped inp obs keep ops q (removal_then_step target l z ok) = (tt, (q, tt))
  allowed-IsStepped inp obs keep ops q (step ordinals k f) = (q, tt)

  pub drain-IsStepped :
      (lib : ConditionLib) (inp : Cycle.Inputs) (qc : QdrantCluster) (obs : Option Observation)
      → Q (inp.live.spec_replicas - 1)
      → All IsStepped (reconcile_drain_cycle lib inp (start qc) obs).pass.calls
  unfolding operations
  drain-IsStepped lib inp qc none q =
      All-calls _
        (subst (All IsStepped) (sym (drain_stands_still lib inp (start qc) none (inl refl))) tt)
  drain-IsStepped lib inp qc (some obs) q =
      All-calls _ (elim (drain-IsGuarded lib inp (start qc) obs) [
        | inl e ↦ subst (All IsStepped) (sym e) tt
        | inr (calm, (ops, e, ok)) ↦
            subst (All IsStepped) (sym e) (allowed-IsStepped inp obs _ ops q ok)
      ])
