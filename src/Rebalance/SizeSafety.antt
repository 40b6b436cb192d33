-- ===== src/Rebalance/SizeSafety.antt =====
-- The one move of `plan_size_rebalance` narrows the gap between the fullest and the emptiest peer.
use qdrant_operator.Common.{
  sort-empty, ℕ, ◌+◌, ◌==◌, ◌≤◌, ◌<◌, ltb, leb, max, min, length, Text, Bool, true, false, not,
  ◌&&◌, ◌||◌, Option, none, some, List, [], ◌∷◌, ◌≡◌, ◌≢◌, ◌∙◌, refl, arith, All, Bool-cases,
  Option-cases, inl, inr, ◌⊎◌, sort, List-cases, sort-All, sym, subst, Memᴰ, All-map,
}
use qdrant_operator.Qdrant.{ShardInfo, CollectionClusterInfo}
use qdrant_operator.Rebalance.Observation.{
  Observation, find_text, holds, size_of, sorted_names, has_dead,
}
use qdrant_operator.Rebalance.Moves.{PlannedMove, move_leb}
use qdrant_operator.Rebalance.SizePlanner.{
  sub64, Extremes, Candidate, start, totals, extremes, spread, spread_from, shifted, comes_first,
  better, weigh, weigh_shards, weigh_all, is_imbalanced, plan_size_rebalance,
}
use qdrant_operator.Rebalance.Planner.{count_plan, plan_rebalance}
use qdrant_operator.Rebalance.Facts.{holds-of_mem}
use qdrant_operator.Rebalance.Safety.{IsCountMove, count_plan-IsCountMove}

-- The two loops over the totals agree on the gap.
extremes-spread :
    (e : Extremes) (t : List (ℕ × ℕ))
    → sub64 (extremes e t).mx (extremes e t).mn ≡ spread_from e.mx e.mn t
unfolding extremes spread_from
extremes-spread e [] = refl
extremes-spread e ((pid, v) ∷ t) =
    extremes-spread
      (record {
        mx = qdrant_operator.Common.if◌then◌else◌ (ltb e.mx v) v e.mx;
        donor = qdrant_operator.Common.if◌then◌else◌ (ltb e.mx v) pid e.donor;
        mn = qdrant_operator.Common.if◌then◌else◌ (ltb v e.mn) v e.mn;
        recip = qdrant_operator.Common.if◌then◌else◌ (ltb v e.mn) pid e.recip;
      })
      t
    ∙ ground arith

module _ (obs : Observation) (t : List (ℕ × ℕ)) (e : Extremes) where
  record IsFit (c : Candidate) : Type 0 where
    pub cc : CollectionClusterInfo
    pub listed : find_text c.coll obs.collections ≡ some cc
    pub held : holds cc.shards c.shard_id e.donor ≡ true
    pub free : holds cc.shards c.shard_id e.recip ≡ false
    pub spread_is :
        c.new_spread ≡ spread (shifted e.donor e.recip (size_of obs c.coll c.shard_id) t)
    pub narrower : c.new_spread < sub64 e.mx e.mn

  abbrev Fits : Option Candidate → Type 0
  Fits none = Unit
  Fits (some c) = IsFit c

  better-Fits :
      (best : Option Candidate) (c : Candidate) → Fits best → IsFit c → Fits (better best c)
  unfolding better
  better-Fits none c h k = k
  better-Fits (some b) c h k = elim (Bool-cases (comes_first c b)) [
    | inl q ↦ rw q k
    | inr q ↦ rw q h
  ]

  weigh-Fits :
      (coll : Text) (cc : CollectionClusterInfo) (best : Option Candidate) (s : ShardInfo)
      → find_text coll obs.collections ≡ some cc
      → Memᴰ s cc.shards
      → Fits best
      → Fits (weigh obs t e coll cc.shards best s)
  unfolding weigh
  weigh-Fits coll cc best s l m h = elim (Bool-cases skipped) [
    | inl q ↦ rw q h
    | inr q ↦ rw q (better-Fits best _ h (fit q))
  ]
    where
      ns : ℕ
      ns = spread (shifted e.donor e.recip (size_of obs coll s.shard_id) t)

      skipped : Bool
      skipped =
          (not (s.peer_id == e.donor) || holds cc.shards s.shard_id e.recip)
          || leb (sub64 e.mx e.mn) ns

      fit : skipped ≡ false → IsFit (record { coll = coll; shard_id = s.shard_id; new_spread = ns })
      fit q = record {
        cc = cc;
        listed = l;
        held = ground (arith, holds-of_mem s cc.shards m);
        free = ground arith;
        spread_is = refl;
        narrower = ground arith;
      }

  weigh_shards-Fits :
      (coll : Text) (cc : CollectionClusterInfo) (rest : List ShardInfo) (best : Option Candidate)
      → find_text coll obs.collections ≡ some cc
      → ((s : ShardInfo) → Memᴰ s rest → Memᴰ s cc.shards)
      → Fits best
      → Fits (weigh_shards obs t e coll cc.shards rest best)
  unfolding weigh_shards
  weigh_shards-Fits coll cc [] best l sub h = h
  weigh_shards-Fits coll cc (s ∷ rest) best l sub h =
      weigh_shards-Fits coll cc rest (weigh obs t e coll cc.shards best s) l
        (λ a m. sub a (Memᴰ.tail m)) (weigh-Fits coll cc best s l (sub s (Memᴰ.head refl)) h)

  weigh_all-Fits :
      (names : List Text) (best : Option Candidate)
      → Fits best
      → Fits (weigh_all obs t e names best)
  unfolding weigh_all
  weigh_all-Fits [] best h = h
  weigh_all-Fits (coll ∷ names) best h = elim (Option-cases (find_text coll obs.collections)) [
    | inl q ↦ rw q (weigh_all-Fits names best h)
    | inr (cc, q) ↦ rw q (
        weigh_all-Fits names (weigh_shards obs t e coll cc.shards cc.shards best)
          (weigh_shards-Fits coll cc cc.shards best q (λ a m. m) h))
  ]

-- A move of the size stage: every size is known, the peers are far enough apart, the donor holds the
-- shard and the recipient does not, and with it moved the totals lie closer together.
pub record IsSizeMove (obs : Observation) (m : PlannedMove) : Type 0 where
  pub cc : CollectionClusterInfo
  pub listed : find_text m.collection obs.collections ≡ some cc
  pub complete : obs.sizes_complete ≡ true
  pub imbalanced : is_imbalanced (extremes start (totals obs)) ≡ true
  pub ends :
      (m.source ≡ (extremes start (totals obs)).donor)
      × (m.target ≡ (extremes start (totals obs)).recip)
  pub held : holds cc.shards m.shard_id m.source ≡ true
  pub free : holds cc.shards m.shard_id m.target ≡ false
  pub narrower :
      spread (shifted m.source m.target (size_of obs m.collection m.shard_id) (totals obs))
      < spread (totals obs)
  pub plain : (m.drop ≡ false) × (m.replicate ≡ false)

pub plan_size_rebalance-IsSizeMove :
    (obs : Observation) → All (IsSizeMove obs) (plan_size_rebalance obs)
unfolding plan_size_rebalance spread
plan_size_rebalance-IsSizeMove obs =
    elim (Bool-cases (ltb (length obs.peers) 2 || not obs.sizes_complete)) [
      | inl q ↦ rw q tt
      | inr q ↦ rw q (elim (Bool-cases (is_imbalanced e)) [
        | inr b ↦ rw b tt
        | inl b ↦ rw b (elim (Option-cases best) [
          | inl n ↦ rw n tt
          | inr (c, s) ↦ rw s (move q b c (subst (Fits obs t e) s fits), tt)
        ])
      ])
    ]
  where
    t : List (ℕ × ℕ)
    t = totals obs

    e : Extremes
    e = extremes start t

    best : Option Candidate
    best = weigh_all obs t e (sorted_names obs) none

    fits : Fits obs t e best
    fits = weigh_all-Fits obs t e (sorted_names obs) none tt

    move :
        (ltb (length obs.peers) 2 || not obs.sizes_complete) ≡ false
        → is_imbalanced e ≡ true
        → (c : Candidate) → IsFit obs t e c
        → IsSizeMove obs (record {
          collection = c.coll;
          shard_id = c.shard_id;
          source = e.donor;
          target = e.recip;
          drop = false;
          replicate = false;
          from_count = 0;
          to_count = 0;
        })
    move q b c f = record {
      cc = f.cc;
      listed = f.listed;
      complete = ground arith;
      imbalanced = b;
      ends = (refl, refl);
      held = f.held;
      free = f.free;
      narrower = omega (arith, f.narrower, f.spread_is, extremes-spread start t);
      plain = (refl, refl);
    }

-- A balancing move: one of the count stage, or one by size where the count stage has nothing to do.
abbrev pub IsBalancing : Observation → PlannedMove → Type 0
IsBalancing obs m = IsCountMove obs m ⊎ ((count_plan obs ≡ []) × IsSizeMove obs m)

-- Each move of the plan takes a shard that its source holds to a peer that does not hold it: from a
-- peer with at least two shards more of the collection, or else, when the count stage plans nothing, so
-- that the gap between the fullest and the emptiest peer gets strictly smaller. None is a drop or a
-- replication.
pub plan_rebalance_safe : (obs : Observation) → All (IsBalancing obs) (plan_rebalance obs)
unfolding plan_rebalance
plan_rebalance_safe obs = elim (Bool-cases (ltb (length obs.peers) 2)) [
  | inl q ↦ rw q tt
  | inr q ↦ rw q (elim (Bool-cases (has_dead obs)) [
    | inl d ↦ rw d tt
    | inr d ↦ rw d (elim (List-cases (sort move_leb (count_plan obs))) [
      | inl n ↦ rw n (
          All-map (plan_size_rebalance obs) (λ m h. inr (sort-empty move_leb (count_plan obs) n, h))
            (plan_size_rebalance-IsSizeMove obs))
      | inr (m, ms, s) ↦ rw s (
          All-map (m ∷ ms) (λ k h. inl h)
            (subst (All (IsCountMove obs)) s
              (sort-All move_leb (IsCountMove obs) (count_plan obs) (count_plan-IsCountMove obs))))
    ])
  ])
]
