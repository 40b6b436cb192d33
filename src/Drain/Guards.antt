-- ===== src/Drain/Guards.antt =====
-- The branches of a drain pass, each with the operations that it may make.
use qdrant_operator.Common.{
  ℕ, ◌-◌, Bool, true, false, Option, none, some, List, [], ◌∷◌, ◌++◌, ◌≡◌, refl, arith, All,
  Bool-cases, Option-cases, inl, inr, ◌∙◌, ap,
}
use qdrant_operator.Qdrant.{Peer}
use qdrant_operator.Api.Conditions.{ConditionLib, Reason}
use qdrant_operator.Api.Cluster.{Kind}
use qdrant_operator.Pass.{Call, Pass, remove_peer, update_replicas, set_condition}
use qdrant_operator.Rebalance.Observation.{Observation, find_id, all_shards_active}
use qdrant_operator.Rebalance.Completeness.{not-mem-nil}
use qdrant_operator.Rebalance.Moves.{PlannedMove}
use qdrant_operator.Rebalance.Executor.{issue_active_move, move_call}
use qdrant_operator.Rebalance.Operations.{is_operation, operations, operations-called}
use qdrant_operator.Rebalance.Issue.{issue-operations}
use qdrant_operator.Drain.Ordinals.{peer_ordinals}
use qdrant_operator.Drain.Plan.{plan_peer_drain}
use qdrant_operator.Drain.Cycle.{
  Inputs, publish_drain_status, reshard_active, shrink_one, remove_and_shrink, keepers_of,
  follow_plan, drain_target, drain_ordinals, drain_settled,
}
use qdrant_operator.Drain.Safety.{IsDrainMove, plan_peer_drain_safe}
use qdrant_operator.Drain.Completeness.{plan_peer_drain_complete}
use qdrant_operator.Drain.Allowed.{
  IsLeaving, IsEmptied, one_move, removal, removal_then_step, step, IsGuarded, quiet,
  status-operations, event-operations, publish-operations, hold-operations, shrink-operations,
  two_calls,
}

module _ (lib : ConditionLib) (inp : Inputs) (obs : Observation) where
  abbrev last : ℕ
  last = inp.live.spec_replicas - 1

  remove-IsGuarded :
      (p : Pass) (target : Peer) (keep : ℕ)
      → IsLeaving inp obs target
      → IsEmptied obs target
      → IsGuarded inp obs keep p.calls (remove_and_shrink lib inp p target).pass.calls
  unfolding remove_and_shrink is_operation set_condition
  remove-IsGuarded p target keep l z =
      elim (Bool-cases (inp.answers.shard_operation (remove_peer target.id false))) [
        | inl ok ↦ (
          remove_peer target.id false ∷ update_replicas last ∷ [],
          rw ok (
              shrink-operations inp.answers _ last
              ∙ ap (λ cs. cs ++ (update_replicas last ∷ []))
                  (event-operations (p.calls ++ (remove_peer target.id false ∷ []))
                      Reason.drain_peer_removed
                    ∙ operations-called p.calls (remove_peer target.id false))
              ∙ two_calls (operations p.calls) (remove_peer target.id false)
                  (update_replicas last)),
          removal_then_step target l z ok,
        )
        | inr bad ↦ (
          remove_peer target.id false ∷ [],
          rw bad (
              status-operations (p.calls ++ (remove_peer target.id false ∷ [])) _
              ∙ operations-called p.calls (remove_peer target.id false)),
          removal target l z,
        )
      ]

  abbrev published : Pass → Option Peer → List PlannedMove → Pass
  published p target moves =
      publish_drain_status inp.now p inp.live.spec_replicas p.cluster.spec.replicas target moves

  -- A pass that has published its status goes on from there.
  after_publish :
      (p : Pass) (target : Option Peer) (moves : List PlannedMove) (keep : ℕ) (after : List Call)
      → IsGuarded inp obs keep (published p target moves).calls after
      → IsGuarded inp obs keep p.calls after
  after_publish p target moves keep after (ops, e, ok) = (
    ops,
    e
        ∙ ap (λ cs. cs ++ ops)
            (publish-operations inp.now p inp.live.spec_replicas p.cluster.spec.replicas target
              moves),
    ok,
  )

  issue-IsGuarded :
      (p : Pass) (target : Peer) (l : IsLeaving inp obs target) (keep : ℕ) (mv : PlannedMove)
      → IsDrainMove target.id (keepers_of keep l.ordinals) obs.collections mv
      → IsGuarded inp obs keep p.calls
          (issue_active_move lib inp.answers inp.now p mv Kind.drain).0.calls
  issue-IsGuarded p target l keep mv ok =
      elim (issue-operations lib inp.answers inp.now p mv Kind.drain) [
        | inl e ↦ quiet inp obs keep _ _ e
        | inr e ↦ (move_call mv ∷ [], e, one_move target l mv ok)
      ]

  follow-IsGuarded :
      (p : Pass) (target : Peer) (l : IsLeaving inp obs target) (moves : List PlannedMove)
      (blocked wait : Bool)
      → All
          (IsDrainMove target.id (keepers_of p.cluster.spec.replicas l.ordinals) obs.collections)
          moves
      → (blocked ≡ false → wait ≡ false → moves ≡ [] → IsEmptied obs target)
      → IsGuarded inp obs p.cluster.spec.replicas p.calls
          (follow_plan lib inp p target
            (record { moves = moves; blocked = blocked; wait = wait })).pass.calls
  unfolding follow_plan
  follow-IsGuarded p target l moves true wait ok empty =
      after_publish p (some target) moves _ _
        (quiet inp obs _ _ _ (hold-operations lib (published p (some target) moves) 0))
  follow-IsGuarded p target l moves false true ok empty =
      after_publish p (some target) moves _ _ (quiet inp obs _ _ _ refl)
  follow-IsGuarded p target l (mv ∷ mvs) false false ok empty =
      after_publish p (some target) (mv ∷ mvs) _ _
        (issue-IsGuarded (published p (some target) (mv ∷ mvs)) target l _ mv ok.0)
  follow-IsGuarded p target l [] false false ok empty =
      after_publish p (some target) [] _ _
        (remove-IsGuarded (published p (some target) []) target _ l (empty refl refl refl))

  emptied :
      (target : Peer) (keepers : List Peer)
      → (plan_peer_drain target keepers obs.collections).blocked ≡ false
      → (plan_peer_drain target keepers obs.collections).wait ≡ false
      → (plan_peer_drain target keepers obs.collections).moves ≡ []
      → IsEmptied obs target
  emptied target keepers b w e coll cc s f m t =
      not-mem-nil _ e
        (plan_peer_drain_complete target keepers obs.collections coll cc s w b f m t).1

  target-IsGuarded :
      (p : Pass) (ordinals : List (ℕ × Peer)) (target : Peer)
      → peer_ordinals inp.hostname obs.peers ≡ some ordinals
      → find_id last ordinals ≡ some target
      → IsGuarded inp obs p.cluster.spec.replicas p.calls
          (drain_target lib inp p obs ordinals target).pass.calls
  unfolding drain_target
  target-IsGuarded p ordinals target known highest = elim (Bool-cases (all_shards_active obs)) [
    | inr off ↦ rw off (after_publish p (some target) [] _ _ (quiet inp obs _ _ _ refl))
    | inl on ↦
        let l : IsLeaving inp obs target = record {
          ordinals = ordinals;
          known = known;
          highest = highest;
          shards_active = on;
        } in
        let keepers = keepers_of p.cluster.spec.replicas ordinals in
        rw on (
          follow-IsGuarded p target l _ _ _ (plan_peer_drain_safe target keepers obs.collections).0
            (emptied target keepers))
  ]

  step_absent :
      (p : Pass) (ordinals : List (ℕ × Peer))
      → find_id last ordinals ≡ none
      → drain_ordinals lib inp p obs (some ordinals) ≡ shrink_one inp.answers p last
  unfolding drain_ordinals
  step_absent p ordinals f = ground (arith, f)

  step_present :
      (p : Pass) (ordinals : List (ℕ × Peer)) (target : Peer)
      → find_id last ordinals ≡ some target
      → drain_ordinals lib inp p obs (some ordinals) ≡ drain_target lib inp p obs ordinals target
  unfolding drain_ordinals
  step_present p ordinals target f = ground (arith, f)

  ordinals-IsGuarded :
      (p : Pass)
      → IsGuarded inp obs p.cluster.spec.replicas p.calls
          (drain_ordinals lib inp p obs (peer_ordinals inp.hostname obs.peers)).pass.calls
  ordinals-IsGuarded p = elim (Option-cases (peer_ordinals inp.hostname obs.peers)) [
    | inl e ↦ rw e (
        unfold drain_ordinals in
        after_publish p none [] _ _
          (quiet inp obs _ _ _ (hold-operations lib (published p none []) 0)))
    | inr (ordinals, e) ↦ elim (Option-cases (find_id last ordinals)) [
      | inl f ↦
          rw (e, step_absent p ordinals f)
            (update_replicas last ∷ [], shrink-operations inp.answers p last, step ordinals e f)
      | inr (target, f) ↦
          rw (e, step_present p ordinals target f) (target-IsGuarded p ordinals target e f)
    ]
  ]

  pub settled-IsGuarded :
      (p : Pass)
      → IsGuarded inp obs p.cluster.spec.replicas p.calls (drain_settled lib inp p obs).pass.calls
  unfolding drain_settled
  settled-IsGuarded p = elim (Bool-cases (reshard_active p.cluster inp.collections)) [
    | inl r ↦ rw r (after_publish p none [] _ _ (quiet inp obs _ _ _ refl))
    | inr r ↦ rw r (ordinals-IsGuarded p)
  ]
