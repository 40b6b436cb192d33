-- ===== src/Drain/Pending.antt =====
-- When a planned move is seen as done: not before it has had an effect.
use qdrant_operator.Common.{
  none, Option-cases, ap, ◌&&◌, ℕ, ◌<◌, ◌^◌, true, false, some, Bool-cases, List, [], ◌∷◌, ◌≡◌, sym,
  ◌∙◌, subst, Memᴰ, arith, All-mem, inl, inr, ◌⊎◌,
}
use qdrant_operator.Qdrant.{Peer, ShardInfo, CollectionClusterInfo}
use qdrant_operator.Api.Cluster.{Kind}
use qdrant_operator.Rebalance.Observation.{Observation, holds, holds_active, holds_dead, find_text}
use qdrant_operator.Rebalance.Moves.{PlannedMove}
use qdrant_operator.Rebalance.Executor.{is_replicate, active_move_completed, move_record, next_plan}
use qdrant_operator.Rebalance.Issue.{IsDue, next_plan-IsDue}
use qdrant_operator.Rebalance.Lane.{completed-move_record}
use qdrant_operator.Drain.Plan.{plan_peer_drain}
use qdrant_operator.Drain.Safety.{IsDrainMove, plan_peer_drain_safe}

dead_held :
    (shards : List ShardInfo) (sid pid : ℕ)
    → holds_dead shards sid pid ≡ true
    → holds shards sid pid ≡ true
unfolding holds_dead holds
dead_held [] sid pid h = h
dead_held (s ∷ shards) sid pid h = ground (arith, dead_held shards sid pid)

module _ (obs : Observation) (now : ℕ) (mv : PlannedMove) (kind : Kind)
    (k : is_replicate kind ≡ mv.replicate) (source_small : mv.source < 2 ^ 64)
    (target_small : mv.target < 2 ^ 64) where
  abbrev IsPending : Type 0
  IsPending = active_move_completed obs (move_record now mv kind) ≡ false

  -- What is not a replication waits for the source to lose the shard.
  held_pending :
      (cc : CollectionClusterInfo)
      → find_text mv.collection obs.collections ≡ some cc
      → mv.replicate ≡ false
      → holds cc.shards mv.shard_id mv.source ≡ true
      → IsPending
  held_pending cc e r h =
      completed-move_record obs now mv kind cc k source_small target_small e ∙ ground (arith, r, h)

  -- A replication waits for the target to be live.
  free_pending :
      (cc : CollectionClusterInfo)
      → find_text mv.collection obs.collections ≡ some cc
      → mv.drop ≡ false
      → mv.replicate ≡ true
      → holds_active cc.shards mv.shard_id mv.target ≡ false
      → IsPending
  free_pending cc e d r h =
      completed-move_record obs now mv kind cc k source_small target_small e
      ∙ ground (arith, d, r, h)

due_pending :
    (obs : Observation) (now : ℕ) (mv : PlannedMove) (kind : Kind)
    → IsDue obs kind mv
    → mv.source < 2 ^ 64
    → mv.target < 2 ^ 64
    → active_move_completed obs (move_record now mv kind) ≡ false
due_pending obs now mv Kind.replicate d s t =
    free_pending obs now mv Kind.replicate (sym d.plain.1) s t d.cc d.listed d.plain.0 d.plain.1
      d.target_free.0
due_pending obs now mv Kind.dead_repair d s t =
    held_pending obs now mv Kind.dead_repair (sym d.0.plain.1) s t d.0.cc d.0.listed d.0.plain.1
      (dead_held d.0.cc.shards mv.shard_id mv.source d.0.dead)
due_pending obs now mv Kind.rebalance (inl c, q, w) s t =
    held_pending obs now mv Kind.rebalance (sym c.plain.1) s t c.cc c.listed c.plain.1 c.held
due_pending obs now mv Kind.rebalance (inr (n, c), q, w) s t =
    held_pending obs now mv Kind.rebalance (sym c.plain.1) s t c.cc c.listed c.plain.1 c.held
due_pending obs now mv Kind.drain d s t = absurd d
due_pending obs now mv (Kind.other _) d s t = absurd d

-- A move of the next plan of the lane, with the kind of that plan, or one of a drain plan.
abbrev pub IsPlanned : Observation → PlannedMove → Kind → Type 0
IsPlanned obs mv kind =
    (Memᴰ mv (next_plan obs).0 × (kind ≡ (next_plan obs).1))
    ⊎ ((target : Peer) × (keepers : List Peer) × Memᴰ mv
          (plan_peer_drain target keepers obs.collections).moves
        × (kind ≡ Kind.drain))

due_kind :
    (obs : Observation) (mv : PlannedMove) (kind : Kind)
    → IsDue obs kind mv
    → is_replicate kind ≡ mv.replicate
due_kind obs mv Kind.replicate d = sym d.plain.1
due_kind obs mv Kind.dead_repair d = sym d.0.plain.1
due_kind obs mv Kind.rebalance (inl c, q, w) = sym c.plain.1
due_kind obs mv Kind.rebalance (inr (n, c), q, w) = sym c.plain.1
due_kind obs mv Kind.drain d = absurd d
due_kind obs mv (Kind.other _) d = absurd d

-- A planned move with what its plan promises.
data IsPromised (obs : Observation) (mv : PlannedMove) (kind : Kind) : Type 0 where
  of_lane : IsDue obs kind mv → IsPromised obs mv kind
  of_drain :
      (target : ℕ) (keepers : List Peer)
      → IsDrainMove target keepers obs.collections mv
      → kind ≡ Kind.drain
      → IsPromised obs mv kind

planned-IsPromised :
    (obs : Observation) (mv : PlannedMove) (kind : Kind)
    → IsPlanned obs mv kind
    → IsPromised obs mv kind
planned-IsPromised obs mv kind (inl (m, e)) = of_lane (
    subst (λ k. IsDue obs k mv) (sym e)
      (All-mem (IsDue obs (next_plan obs).1) (next_plan obs).0 (next_plan-IsDue obs) m))
planned-IsPromised obs mv kind (inr (target, keepers, m, e)) =
    of_drain target.id keepers
      (All-mem (IsDrainMove target.id keepers obs.collections)
        (plan_peer_drain target keepers obs.collections).moves
        (plan_peer_drain_safe target keepers obs.collections).0 m)
      e

promised_kind :
    (obs : Observation) (mv : PlannedMove) (kind : Kind)
    → IsPromised obs mv kind
    → is_replicate kind ≡ mv.replicate
promised_kind obs mv kind (of_lane d) = due_kind obs mv kind d
promised_kind obs mv kind (of_drain target keepers d e) = ap is_replicate e ∙ sym d.plain

due_single :
    (obs : Observation) (mv : PlannedMove) (kind : Kind)
    → IsDue obs kind mv
    → (mv.drop && mv.replicate) ≡ false
due_single obs mv Kind.replicate d = ground (arith, d.plain.0)
due_single obs mv Kind.dead_repair d = ground (arith, d.0.plain.1)
due_single obs mv Kind.rebalance (inl c, q, w) = ground (arith, c.plain.0)
due_single obs mv Kind.rebalance (inr (n, c), q, w) = ground (arith, c.plain.0)
due_single obs mv Kind.drain d = absurd d
due_single obs mv (Kind.other _) d = absurd d

-- No move is a drop and a replication at once.
promised_single :
    (obs : Observation) (mv : PlannedMove) (kind : Kind)
    → IsPromised obs mv kind
    → (mv.drop && mv.replicate) ≡ false
promised_single obs mv kind (of_lane d) = due_single obs mv kind d
promised_single obs mv kind (of_drain target keepers d e) = ground (arith, d.plain)

promised_pending :
    (obs : Observation) (now : ℕ) (mv : PlannedMove) (kind : Kind)
    → IsPromised obs mv kind
    → mv.source < 2 ^ 64
    → mv.target < 2 ^ 64
    → active_move_completed obs (move_record now mv kind) ≡ false
promised_pending obs now mv kind (of_lane d) s t = due_pending obs now mv kind d s t
promised_pending obs now mv kind (of_drain target keepers d e) s t =
    subst (λ k. active_move_completed obs (move_record now mv k) ≡ false) (sym e)
      (held_pending obs now mv Kind.drain (sym d.plain) s t d.cc d.listed d.plain
        (subst (λ p. holds d.cc.shards mv.shard_id p ≡ true) (sym d.from_target) d.held))

-- The placement shows the effect: what is no replication has left the source, and what is no drop is
-- live on the target.
pub record IsEffective (obs : Observation) (mv : PlannedMove) : Type 0 where
  pub cc : CollectionClusterInfo
  pub listed : find_text mv.collection obs.collections ≡ some cc
  pub left : mv.replicate ≡ false → holds cc.shards mv.shard_id mv.source ≡ false
  pub live : mv.drop ≡ false → holds_active cc.shards mv.shard_id mv.target ≡ true

unlisted_pending :
    (obs : Observation) (now : ℕ) (mv : PlannedMove) (kind : Kind)
    → find_text mv.collection obs.collections ≡ none
    → active_move_completed obs (move_record now mv kind) ≡ false
unfolding active_move_completed move_record
unlisted_pending obs now mv kind e = ground (arith, e)

completed-IsEffective :
    (obs : Observation) (now : ℕ) (mv : PlannedMove) (kind : Kind)
    → is_replicate kind ≡ mv.replicate
    → (mv.drop && mv.replicate) ≡ false
    → mv.source < 2 ^ 64
    → mv.target < 2 ^ 64
    → active_move_completed obs (move_record now mv kind) ≡ true
    → IsEffective obs mv
completed-IsEffective obs now mv kind k one s t h =
    elim (Option-cases (find_text mv.collection obs.collections)) [
      | inl e ↦ absurd (let f = unlisted_pending obs now mv kind e in cc)
      | inr (cc, e) ↦
          let shown = sym (completed-move_record obs now mv kind cc k s t e) ∙ h in
          record {
            cc = cc;
            listed = e;
            left = λ r. ground (arith, shown, r);
            live = λ d. ground (arith, shown, d);
          }
    ]

completed-shown :
    (later : Observation) (now : ℕ) (mv : PlannedMove) (kind : Kind)
    → is_replicate kind ≡ mv.replicate
    → (mv.drop && mv.replicate) ≡ false
    → mv.source < 2 ^ 64
    → mv.target < 2 ^ 64
    → (active_move_completed later (move_record now mv kind) ≡ false) ⊎ IsEffective later mv
completed-shown later now mv kind k one s t =
    elim (Bool-cases (active_move_completed later (move_record now mv kind))) [
      | inl done ↦ inr (completed-IsEffective later now mv kind k one s t done)
      | inr waiting ↦ inl waiting
    ]

-- A move that the lane or the drain has planned from an observation, whatever its kind, does not count
-- as completed on that observation; and any later one on which it does shows its effect: a drop or a
-- move has left the source, a replication or a move is live on the target. Peer ids are below 2 ^ 64.
pub active_move_completed-planned :
    (obs later : Observation) (now : ℕ) (mv : PlannedMove) (kind : Kind)
    → IsPlanned obs mv kind
    → mv.source < 2 ^ 64
    → mv.target < 2 ^ 64
    → (active_move_completed obs (move_record now mv kind) ≡ false)
      × ((active_move_completed later (move_record now mv kind) ≡ false) ⊎ IsEffective later mv)
active_move_completed-planned obs later now mv kind planned s t = (
  promised_pending obs now mv kind p s t,
  completed-shown later now mv kind (promised_kind obs mv kind p) (promised_single obs mv kind p) s
      t,
)
  where
    p : IsPromised obs mv kind
    p = planned-IsPromised obs mv kind planned
