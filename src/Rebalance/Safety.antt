-- ===== src/Rebalance/Safety.antt =====
-- Every move of `plan_rebalance` is one that the cluster can take.
use qdrant_operator.Common.{
  ℕ, ◌+◌, ◌==◌, ◌≤◌, ltb, leb, Text, Bool, true, false, not, ◌&&◌, ◌||◌, some, List, ◌∷◌, ◌≡◌, refl,
  Memᴰ, arith, All, All-of_map, All-of_mem, All-flat_map, mem-filter, sort-All, Bool-cases,
  List-cases, inl, inr, subst, map, filter,
}
use qdrant_operator.Qdrant.{Peer, ShardInfo, CollectionClusterInfo}
use qdrant_operator.Rebalance.Observation.{Observation, find_text, holds, is_member, sorted_names}
use qdrant_operator.Rebalance.Moves.{PlannedMove}
use qdrant_operator.Rebalance.Planner.{shards_on, movable, candidate, candidates, count_plan}
use qdrant_operator.Rebalance.Facts.{holds-of_mem, is_member-of_mem, All-walk}

-- The shard can go from donor to recipient.
abbrev pub CanMove : List ShardInfo → ℕ → ℕ → ℕ → Type 0
CanMove shards donor recip sid = (holds shards sid donor ≡ true) × (holds shards sid recip ≡ false)

pub movable-CanMove :
    (shards : List ShardInfo) (donor recip : ℕ)
    → All (CanMove shards donor recip) (movable shards donor recip)
unfolding movable
movable-CanMove shards donor recip =
    sort-All leb (CanMove shards donor recip)
      (map (λ (s : ShardInfo). s.shard_id) (filter test shards))
      (All-of_map (CanMove shards donor recip) (λ (s : ShardInfo). s.shard_id) (filter test shards)
        (All-of_mem _ (filter test shards) λ s m. kept s (mem-filter test shards m)))
  where
    test : ShardInfo → Bool
    test s = s.peer_id == donor && not (holds shards s.shard_id recip)

    kept :
        (s : ShardInfo)
        → Memᴰ s shards × ((s.peer_id == donor && not (holds shards s.shard_id recip)) ≡ true)
        → CanMove shards donor recip s.shard_id
    kept s (m, t) = ground (arith, holds-of_mem s shards m)

-- A move of the count stage: both ends are peers, the gap is at least two, the donor has the shard
-- and the recipient has not, and nothing but a move is asked for.
pub record IsCountMove (obs : Observation) (m : PlannedMove) : Type 0 where
  pub cc : CollectionClusterInfo
  pub listed : find_text m.collection obs.collections ≡ some cc
  pub donor_known : is_member obs.peers m.source ≡ true
  pub recip_known : is_member obs.peers m.target ≡ true
  pub gap : shards_on obs.peers cc.shards m.target + 2 ≤ shards_on obs.peers cc.shards m.source
  pub held : holds cc.shards m.shard_id m.source ≡ true
  pub free : holds cc.shards m.shard_id m.target ≡ false
  pub plain : (m.drop ≡ false) × (m.replicate ≡ false)

module _ (obs : Observation) (coll : Text) (cc : CollectionClusterInfo)
    (e : find_text coll obs.collections ≡ some cc) where
  candidate-IsCountMove :
      (donor recip : Peer)
      → Memᴰ donor obs.peers
      → Memᴰ recip obs.peers
      → All (IsCountMove obs) (candidate obs.peers coll cc donor.id recip.id)
  unfolding candidate
  candidate-IsCountMove donor recip dm rm = elim (Bool-cases test) [
    | inl t ↦ rw t tt
    | inr t ↦ rw t (elim (List-cases (movable cc.shards donor.id recip.id)) [
      | inl none_left ↦ rw none_left tt
      | inr (sid, rest, eq) ↦ rw eq (
        record {
          cc = cc;
          listed = e;
          donor_known = is_member-of_mem donor obs.peers dm;
          recip_known = is_member-of_mem recip obs.peers rm;
          gap = ground arith;
          held = (ok sid rest eq).0;
          free = (ok sid rest eq).1;
          plain = (refl, refl);
        },
        tt,
      )
    ])
  ]
    where
      test : Bool
      test =
          donor.id == recip.id
          || ltb (shards_on obs.peers cc.shards donor.id)
              (shards_on obs.peers cc.shards recip.id + 2)

      ok :
          (sid : ℕ) (rest : List ℕ)
          → movable cc.shards donor.id recip.id ≡ sid ∷ rest
          → CanMove cc.shards donor.id recip.id sid
      ok sid rest eq =
          (subst (All (CanMove cc.shards donor.id recip.id)) eq
            (movable-CanMove cc.shards donor.id recip.id)).0

  candidates-IsCountMove : All (IsCountMove obs) (candidates obs.peers coll cc)
  unfolding candidates
  candidates-IsCountMove =
      All-flat_map _ _ obs.peers
        λ donor dm. All-flat_map _ _ obs.peers λ recip rm. candidate-IsCountMove donor recip dm rm

pub count_plan-IsCountMove : (obs : Observation) → All (IsCountMove obs) (count_plan obs)
unfolding count_plan
count_plan-IsCountMove obs =
    All-walk (IsCountMove obs) obs (candidates obs.peers) (sorted_names obs)
      λ coll cc e. candidates-IsCountMove obs coll cc e
