-- ===== src/Rebalance/Target.antt =====
-- The target that is picked for a new replica, and the live holders it is picked beside.
use qdrant_operator.Common.{
  ℕ, ◌==◌, ◌≤◌, ◌<◌, ltb, Bool, true, false, ◌&&◌, ◌||◌, Option, none, some, List, [], ◌∷◌, ◌≡◌,
  refl, Memᴰ, arith, All, All-of_map, All-of_mem, filter, mem-filter, Bool-cases, inl, inr, ◌⊎◌,
  subst,
}
use qdrant_operator.Qdrant.{Peer, ShardInfo, is_active}
use qdrant_operator.Rebalance.Observation.{holds_active, is_member}
use qdrant_operator.Rebalance.Repair.{active_holders, contains, pick_target}
use qdrant_operator.Rebalance.Facts.{holds_active-of_mem}

-- `a` comes no later than `b` by load, then by id.
abbrev pub NoLater : (ℕ → ℕ) → ℕ → ℕ → Type 0
NoLater load a b = (load a < load b) ⊎ ((load a ≡ load b) × (a ≤ b))

module _ (load : ℕ → ℕ) (skip : ℕ → Bool) where
  -- The peer that is picked passes the test, and none that passes it comes before it.
  pub record IsPicked (peers : List Peer) (found : Option ℕ) (t : ℕ) : Type 0 where
    pub origin : (found ≡ some t) ⊎ ((is_member peers t ≡ true) × (skip t ≡ false))
    pub least : All (λ p. skip p.id ≡ false → NoLater load t p.id) peers
    pub older : (b : ℕ) → found ≡ some b → NoLater load t b

  pub pick_target-IsPicked :
      (peers : List Peer) (found : Option ℕ) (t : ℕ)
      → pick_target load skip peers found ≡ some t
      → IsPicked peers found t
  unfolding pick_target is_member
  pick_target-IsPicked [] found t h = record {
    origin = inl h;
    least = tt;
    older = λ b e. ground arith;
  }
  pick_target-IsPicked (p ∷ peers) none t h = elim (Bool-cases (skip p.id)) [
    | inl q ↦
        let r = pick_target-IsPicked peers none t (rw q at h) in
        record {
          origin = ground (arith, r.origin);
          least = (λ k. absurd (ground arith), r.least);
          older = λ b e. absurd (ground arith);
        }
    | inr q ↦
        let r = pick_target-IsPicked peers (some p.id) t (rw q at h) in
        record {
          origin = ground (arith, r.origin);
          least = (λ k. r.older p.id refl, r.least);
          older = λ b e. absurd (ground arith);
        }
  ]
  pick_target-IsPicked (p ∷ peers) (some c) t h = elim (Bool-cases (skip p.id)) [
    | inl q ↦
        let r = pick_target-IsPicked peers (some c) t (rw q at h) in
        record {
          origin = ground (arith, r.origin);
          least = (λ k. absurd (ground arith), r.least);
          older = r.older;
        }
    | inr q ↦ elim (Bool-cases beats) [
      | inl w ↦
          let r = pick_target-IsPicked peers (some p.id) t (rw (q, w) at h) in
          record {
            origin = ground (arith, r.origin);
            least = (λ k. r.older p.id refl, r.least);
            older = λ b e. ground (arith, r.older p.id refl);
          }
      | inr w ↦
          let r = pick_target-IsPicked peers (some c) t (rw (q, w) at h) in
          record {
            origin = ground (arith, r.origin);
            least = (λ k. ground (arith, r.older c refl), r.least);
            older = r.older;
          }
    ]
  ]
    where
      beats : Bool
      beats = ltb (load p.id) (load c) || (load p.id == load c && ltb p.id c)

pub active_holders-All :
    (shards : List ShardInfo) (sid : ℕ)
    → All (λ pid. holds_active shards sid pid ≡ true) (active_holders shards sid)
unfolding active_holders
active_holders-All shards sid =
    All-of_map _ (λ (s : ShardInfo). s.peer_id) (filter test shards)
      (All-of_mem _ (filter test shards) λ s m. kept s (mem-filter test shards m))
  where
    test : ShardInfo → Bool
    test s = is_active s.state && s.shard_id == sid

    kept :
        (s : ShardInfo) → Memᴰ s shards × (test s ≡ true) → holds_active shards sid s.peer_id ≡ true
    kept s (m, t) =
        subst (λ k. holds_active shards k s.peer_id ≡ true) (same t)
          (holds_active-of_mem s shards m (ground arith))
      where
        same : test s ≡ true → s.shard_id ≡ sid
        same t = ground arith

pub contains_of_active :
    (shards : List ShardInfo) (sid pid : ℕ)
    → holds_active shards sid pid ≡ true
    → contains (active_holders shards sid) pid ≡ true
unfolding active_holders holds_active
contains_of_active [] sid pid h = h
contains_of_active (s ∷ shards) sid pid h = ground (arith, contains_of_active shards sid pid)
