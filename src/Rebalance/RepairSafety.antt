-- ===== src/Rebalance/RepairSafety.antt =====
-- Replications go from a live replica to a peer that can take one; drops touch dead replicas of shards
-- with enough live ones.
use qdrant_operator.Common.{
  ℕ, ◌==◌, ◌≤◌, ◌<◌, ltb, leb, max, Text, Bool, true, false, ◌&&◌, ◌||◌, Option, none, some, List,
  ◌∷◌, ◌≡◌, refl, Memᴰ, arith, length, All, All-of_map, All-of_mem, All-flat_map, filter, sort,
  sort-All, mem-filter, mem-sort, Bool-cases, List-cases, Option-cases, inl, inr, subst, sym,
  any-mem, All-map, ◌∙◌, any_of_mem,
}
use mathlib.Core.Bool.{false≢true}
use qdrant_operator.Qdrant.{ShardInfo, CollectionClusterInfo, is_dead}
use qdrant_operator.Rebalance.Observation.{
  Observation, find_text, rf_of, holds_active, holds_dead, is_member, sorted_names,
}
use qdrant_operator.Rebalance.Moves.{PlannedMove}
use qdrant_operator.Rebalance.Planner.{shards_on}
use qdrant_operator.Rebalance.Repair.{
  active_holders, dead_holders, active_shards, dead_shards, contains, pick_target, replication,
  collection_replications, plan_replications, drop_of, active_count, shard_drops, collection_drops,
  plan_dead_drops,
}
use qdrant_operator.Rebalance.Facts.{holds_dead-of_mem, All-walk}
use qdrant_operator.Rebalance.Target.{
  IsPicked, pick_target-IsPicked, active_holders-All, contains_of_active,
}

-- A replication: the factor is at least two and can be met, the shard has fewer live replicas than
-- that, the source is a live one, and the target is a peer with neither a live nor a dead one.
pub record IsReplication (obs : Observation) (m : PlannedMove) : Type 0 where
  pub cc : CollectionClusterInfo
  pub listed : find_text m.collection obs.collections ≡ some cc
  pub factor : (2 ≤ rf_of obs m.collection) × (rf_of obs m.collection ≤ length obs.peers)
  pub below : length (active_holders cc.shards m.shard_id) < rf_of obs m.collection
  pub source_live : holds_active cc.shards m.shard_id m.source ≡ true
  pub target_known : is_member obs.peers m.target ≡ true
  pub target_free :
      (holds_active cc.shards m.shard_id m.target ≡ false)
      × (holds_dead cc.shards m.shard_id m.target ≡ false)
  pub plain : (m.drop ≡ false) × (m.replicate ≡ true)

contains-sort : (ns : List ℕ) (k : ℕ) → contains ns k ≡ true → contains (sort leb ns) k ≡ true
contains-sort ns k h =
    let r = any-mem (λ m. m == k) ns h in
    any_of_mem (λ m. m == k) (sort leb ns) (mem-sort leb ns r.1) r.2

module _ (obs : Observation) (coll : Text) (cc : CollectionClusterInfo)
    (e : find_text coll obs.collections ≡ some cc)
    (factor : (2 ≤ rf_of obs coll) × (rf_of obs coll ≤ length obs.peers)) where
  replication-IsReplication :
      (sid : ℕ)
      → All (IsReplication obs) (replication obs.peers (rf_of obs coll) coll cc.shards sid)
  unfolding replication
  replication-IsReplication sid =
      elim (Bool-cases (leb (rf_of obs coll) (length (active_holders cc.shards sid)))) [
        | inl q ↦ rw q tt
        | inr q ↦ rw q (elim (List-cases (sort leb (active_holders cc.shards sid))) [
          | inl n ↦ rw n tt
          | inr (source, others, s) ↦ rw s (elim (Option-cases (picked source others)) [
            | inl n ↦ rw n tt
            | inr (target, t) ↦ rw t (
              repair source others target s q (
                  pick_target-IsPicked (shards_on obs.peers cc.shards) (skip source others)
                    obs.peers none target t),
              tt,
            )
          ])
        ])
      ]
    where
      skip : ℕ → List ℕ → ℕ → Bool
      skip source others pid = contains (source ∷ others) pid || holds_dead cc.shards sid pid

      picked : ℕ → List ℕ → Option ℕ
      picked source others =
          pick_target (shards_on obs.peers cc.shards) (skip source others) obs.peers none

      live_source :
          (source : ℕ) (others : List ℕ)
          → sort leb (active_holders cc.shards sid) ≡ source ∷ others
          → holds_active cc.shards sid source ≡ true
      live_source source others s =
          (subst (All (λ pid. holds_active cc.shards sid pid ≡ true)) s (
            sort-All leb (λ pid. holds_active cc.shards sid pid ≡ true)
              (active_holders cc.shards sid) (active_holders-All cc.shards sid))).0

      not_live :
          (source : ℕ) (others : List ℕ) (target : ℕ)
          → sort leb (active_holders cc.shards sid) ≡ source ∷ others
          → contains (source ∷ others) target ≡ false
          → holds_active cc.shards sid target ≡ false
      not_live source others target s c = elim (Bool-cases (holds_active cc.shards sid target)) [
        | inr n ↦ n
        | inl y ↦
            let z =
              subst (λ ns. contains ns target ≡ true) s
                (contains-sort (active_holders cc.shards sid) target
                  (contains_of_active cc.shards sid target y)) in
            absurd (false≢true (sym c ∙ z))
      ]

      repair :
          (source : ℕ) (others : List ℕ) (target : ℕ)
          → sort leb (active_holders cc.shards sid) ≡ source ∷ others
          → leb (rf_of obs coll) (length (active_holders cc.shards sid)) ≡ false
          → IsPicked (shards_on obs.peers cc.shards) (skip source others) obs.peers none target
          → IsReplication obs (record {
            collection = coll;
            shard_id = sid;
            source = source;
            target = target;
            drop = false;
            replicate = true;
            from_count = 0;
            to_count = 0;
          })
      repair source others target s q r = record {
        cc = cc;
        listed = e;
        factor = factor;
        below = ground arith;
        source_live = live_source source others s;
        target_known = ground (arith, r.origin);
        target_free =
            (not_live source others target s (ground (arith, r.origin)), ground (arith, r.origin));
        plain = (refl, refl);
      }

-- Every planned replication is for a shard of a listed collection with fewer live replicas than its
-- replication factor, which is at least two and at most the number of peers. Its source has a live
-- replica; its target is a known peer without a live or a dead one. None is a drop.
pub plan_replications_safe : (obs : Observation) → All (IsReplication obs) (plan_replications obs)
unfolding plan_replications
plan_replications_safe obs =
    All-walk (IsReplication obs) obs
      (λ coll found. collection_replications obs.peers (rf_of obs coll) coll found)
      (sorted_names obs) λ coll found e. each coll found e
  where
    each :
        (coll : Text) (found : CollectionClusterInfo)
        → find_text coll obs.collections ≡ some found
        → All (IsReplication obs) (collection_replications obs.peers (rf_of obs coll) coll found)
    each coll found e =
        unfold collection_replications in
        elim (Bool-cases (ltb (rf_of obs coll) 2 || ltb (length obs.peers) (rf_of obs coll))) [
          | inl q ↦ rw q tt
          | inr q ↦ rw q (
              All-flat_map (IsReplication obs) _ (active_shards found.shards) (λ sid m.
                replication-IsReplication obs coll found e (ground arith, ground arith) sid))
        ]

-- A drop: the shard is dead on that peer, and has as many live replicas as its factor asks for, one
-- at least.
pub record IsDeadDrop (obs : Observation) (m : PlannedMove) : Type 0 where
  pub cc : CollectionClusterInfo
  pub listed : find_text m.collection obs.collections ≡ some cc
  pub enough : max (rf_of obs m.collection) 1 ≤ active_count cc.shards m.shard_id
  pub dead : holds_dead cc.shards m.shard_id m.source ≡ true
  pub plain : (m.drop ≡ true) × (m.replicate ≡ false)

dead_holders-All :
    (shards : List ShardInfo) (sid : ℕ)
    → All (λ pid. holds_dead shards sid pid ≡ true) (dead_holders shards sid)
unfolding dead_holders
dead_holders-All shards sid =
    All-of_map _ (λ (s : ShardInfo). s.peer_id) (filter test shards)
      (All-of_mem _ (filter test shards) λ s m. kept s (mem-filter test shards m))
  where
    test : ShardInfo → Bool
    test s = is_dead s.state && s.shard_id == sid

    same : (s : ShardInfo) → test s ≡ true → s.shard_id ≡ sid
    same s t = ground arith

    kept :
        (s : ShardInfo) → Memᴰ s shards × (test s ≡ true) → holds_dead shards sid s.peer_id ≡ true
    kept s (m, t) =
        subst (λ k. holds_dead shards k s.peer_id ≡ true) (same s t)
          (holds_dead-of_mem s shards m (ground arith))

-- Every planned drop of a dead replica is for a shard of a listed collection with at least as many live
-- replicas as its replication factor, and one at least; and the peer that drops it has a dead replica.
pub plan_dead_drops_safe : (obs : Observation) → All (IsDeadDrop obs) (plan_dead_drops obs)
unfolding plan_dead_drops
plan_dead_drops_safe obs =
    All-walk (IsDeadDrop obs) obs (λ coll found. collection_drops (rf_of obs coll) coll found)
      (sorted_names obs) each
  where
    each :
        (coll : Text) (found : CollectionClusterInfo)
        → find_text coll obs.collections ≡ some found
        → All (IsDeadDrop obs) (collection_drops (rf_of obs coll) coll found)
    each coll found e =
        unfold collection_drops shard_drops in
        All-flat_map (IsDeadDrop obs) _ (dead_shards found.shards) λ sid m.
          elim (Bool-cases (ltb (active_count found.shards sid) (max (rf_of obs coll) 1))) [
            | inl q ↦ rw q tt
            | inr q ↦ rw q (
                All-of_map (IsDeadDrop obs) (drop_of coll sid)
                  (sort leb (dead_holders found.shards sid))
                  (All-map (sort leb (dead_holders found.shards sid))
                    (λ pid d. record {
                      cc = found;
                      listed = e;
                      enough = ground arith;
                      dead = d;
                      plain = (refl, refl);
                    })
                    (sort-All leb (λ pid. holds_dead found.shards sid pid ≡ true)
                      (dead_holders found.shards sid) (dead_holders-All found.shards sid))))
          ]
