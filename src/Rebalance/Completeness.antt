-- ===== src/Rebalance/Completeness.antt =====
-- What an empty plan means, and the order of a plan that is not.
use qdrant_operator.Common.{
  ℕ, ◌+◌, ◌==◌, ◌≤◌, ltb, leb, Text, Bool, true, false, not, ◌&&◌, ◌||◌, Option, none, some, List,
  [], ◌∷◌, ◌≡◌, refl, Memᴰ, arith, length, filter, sort, flat_map, mem-map, mem-filter_of, mem-sort,
  mem-flat_map, Bool-cases, List-cases, inl, inr, subst, sym, ap, text_eq, text_leb, IsSorted,
  sort-IsSorted, IsCompare, lex-IsCompare, key_compare, key_compare_down, compare-IsOrder,
  text_compare_laws, text_compare, IsOrder, text_eq_sound, Option-cases,
}
use qdrant_operator.Qdrant.{Peer, ShardInfo, CollectionClusterInfo}
use qdrant_operator.Rebalance.Observation.{
  Observation, find_text, keys, holds, sorted_names, has_dead,
}
use qdrant_operator.Rebalance.Moves.{PlannedMove, move_compare, move_leb}
use qdrant_operator.Rebalance.SizePlanner.{
  Candidate, start, totals, extremes, is_imbalanced, weigh_all, plan_size_rebalance,
}
use qdrant_operator.Rebalance.Planner.{
  shards_on, movable, candidate, candidates, count_plan, plan_rebalance,
}

pub mem-keys {ℓ} :
    {V : Type ℓ} (k : Text) (m : List (Text × V)) {v : V} → find_text k m ≡ some v → Memᴰ k (keys m)
unfolding find_text keys
mem-keys k [] h = absurd (ground arith)
mem-keys k ((j, w) ∷ m) h = elim (Bool-cases (text_eq j k)) [
  | inl e ↦ Memᴰ.head (sym (text_eq_sound j k e))
  | inr e ↦ Memᴰ.tail (mem-keys k m (rw e at h))
]

pub mem-sorted_names :
    (obs : Observation) (coll : Text) {cc : CollectionClusterInfo}
    → find_text coll obs.collections ≡ some cc
    → Memᴰ coll (sorted_names obs)
unfolding sorted_names
mem-sorted_names obs coll h =
    mem-sort text_leb (keys obs.collections) (mem-keys coll obs.collections h)

-- A collection's moves are in the plan of a walk.
pub mem-walk :
    (obs : Observation) (plan : Text → CollectionClusterInfo → List PlannedMove) (coll : Text)
    (cc : CollectionClusterInfo) (m : PlannedMove)
    → find_text coll obs.collections ≡ some cc
    → Memᴰ m (plan coll cc)
    → Memᴰ m (
        flat_map
          (λ coll. elim (find_text coll obs.collections) [ none ↦ [] | some cc ↦ plan coll cc ])
          (sorted_names obs))
mem-walk obs plan coll cc m e h =
    mem-flat_map _ (sorted_names obs) (mem-sorted_names obs coll e) (rw e h)

pub not-mem-nil {ℓ} : {A : Type ℓ} {a : A} (xs : List A) → xs ≡ [] → Memᴰ a xs → ⊥
not-mem-nil [] e m = elim m [ ]
not-mem-nil (x ∷ xs) e m = ground arith

candidate_of_movable :
    (peers : List Peer) (coll : Text) (cc : CollectionClusterInfo) (donor recip sid : ℕ)
    → (donor == recip) ≡ false
    → shards_on peers cc.shards recip + 2 ≤ shards_on peers cc.shards donor
    → Memᴰ sid (movable cc.shards donor recip)
    → (m : PlannedMove) × Memᴰ m (candidate peers coll cc donor recip)
unfolding candidate
candidate_of_movable peers coll cc donor recip sid n gap m =
    elim (List-cases (movable cc.shards donor recip)) [
      | inl e ↦ absurd (not-mem-nil (movable cc.shards donor recip) e m)
      | inr (first, rest, e) ↦ (
        record {
          collection = coll;
          shard_id = first;
          source = donor;
          target = recip;
          drop = false;
          replicate = false;
          from_count = shards_on peers cc.shards donor;
          to_count = shards_on peers cc.shards recip;
        },
        rw (test, e) (Memᴰ.head refl),
      )
    ]
  where
    test :
        (donor == recip
          || ltb (shards_on peers cc.shards donor) (shards_on peers cc.shards recip + 2))
        ≡ false
    test = ground arith

-- The count stage finds nothing to do only if, wherever one peer has two shards of a collection more
-- than another, the other already holds every one of them.
pub count_plan_complete :
    (obs : Observation)
    → count_plan obs ≡ []
    → (coll : Text) (cc : CollectionClusterInfo) (donor recip : Peer) (s : ShardInfo)
    → find_text coll obs.collections ≡ some cc
    → Memᴰ donor obs.peers
    → Memᴰ recip obs.peers
    → shards_on obs.peers cc.shards recip.id + 2 ≤ shards_on obs.peers cc.shards donor.id
    → Memᴰ s cc.shards
    → s.peer_id ≡ donor.id
    → holds cc.shards s.shard_id recip.id ≡ true
count_plan_complete obs empty coll cc donor recip s e dm rm gap sm on =
    elim (Bool-cases (holds cc.shards s.shard_id recip.id)) [
      | inl h ↦ h
      | inr h ↦ absurd (impossible h)
    ]
  where
    free : ShardInfo → Bool
    free x = x.peer_id == donor.id && not (holds cc.shards x.shard_id recip.id)

    in_movable :
        holds cc.shards s.shard_id recip.id ≡ false
        → Memᴰ s.shard_id (movable cc.shards donor.id recip.id)
    in_movable h =
        unfold movable in
        mem-sort leb _ (
          mem-map (λ (x : ShardInfo). x.shard_id) (filter free cc.shards)
            (mem-filter_of free cc.shards sm (ground arith)))

    unlike : (donor.id == recip.id) ≡ false
    unlike = elim (Bool-cases (donor.id == recip.id)) [
      | inr n ↦ n
      | inl y ↦ absurd (ground (arith, ap (shards_on obs.peers cc.shards) (same y)))
    ]
      where
        same : (donor.id == recip.id) ≡ true → donor.id ≡ recip.id
        same y = ground arith

    one_candidate :
        holds cc.shards s.shard_id recip.id ≡ false
        → (m : PlannedMove) × Memᴰ m (candidate obs.peers coll cc donor.id recip.id)
    one_candidate h =
        candidate_of_movable obs.peers coll cc donor.id recip.id s.shard_id unlike gap
          (in_movable h)

    impossible : holds cc.shards s.shard_id recip.id ≡ false → ⊥
    impossible h =
        let c = one_candidate h in
        not-mem-nil {a = c.0} (count_plan obs) empty (
          unfold count_plan in
          mem-walk obs (candidates obs.peers) coll cc c.0 e
            (unfold candidates in mem-flat_map _ obs.peers dm (mem-flat_map _ obs.peers rm c.1)))

move_leb-IsOrder : IsOrder move_leb
unfolding move_leb move_compare
move_leb-IsOrder = compare-IsOrder (
    lex-IsCompare (key_compare_down (λ (m : PlannedMove). m.from_count)) (
      lex-IsCompare (key_compare (λ (m : PlannedMove). m.to_count)) (
        lex-IsCompare (key_compare_down (λ (m : PlannedMove). m.source)) (
          lex-IsCompare (key_compare (λ (m : PlannedMove). m.target))
            (lex-IsCompare (key_compare (λ (m : PlannedMove). m.shard_id)) by_name)))))
  where
    by_name : IsCompare (λ (a b : PlannedMove). text_compare a.collection b.collection)
    by_name = record {
      swap = λ a b. text_compare_laws.swap a.collection b.collection;
      trans = λ a b c. text_compare_laws.trans a.collection b.collection c.collection;
      congr = λ a b c. text_compare_laws.congr a.collection b.collection c.collection;
    }

size-IsSorted : (obs : Observation) → IsSorted move_leb (plan_size_rebalance obs)
unfolding plan_size_rebalance
size-IsSorted obs = elim (Bool-cases (ltb (length obs.peers) 2 || not obs.sizes_complete)) [
  | inl q ↦ rw q tt
  | inr q ↦ rw q (elim (Bool-cases (is_imbalanced (extremes start (totals obs)))) [
    | inr b ↦ rw b tt
    | inl b ↦ rw b (elim (Option-cases best) [ inl n ↦ rw n tt | inr (c, s) ↦ rw s (tt, tt) ])
  ])
]
  where
    best : Option Candidate
    best = weigh_all obs (totals obs) (extremes start (totals obs)) (sorted_names obs) none

-- The plan is sorted by the comparison of moves.
pub plan_rebalance-IsSorted : (obs : Observation) → IsSorted move_leb (plan_rebalance obs)
unfolding plan_rebalance
plan_rebalance-IsSorted obs = elim (Bool-cases (ltb (length obs.peers) 2)) [
  | inl q ↦ rw q tt
  | inr q ↦ rw q (elim (Bool-cases (has_dead obs)) [
    | inl d ↦ rw d tt
    | inr d ↦ rw d (elim (List-cases (sort move_leb (count_plan obs))) [
      | inl n ↦ rw n (size-IsSorted obs)
      | inr (m, ms, s) ↦
          rw s
            (subst (IsSorted move_leb) s (sort-IsSorted move_leb move_leb-IsOrder (count_plan obs)))
    ])
  ])
]
