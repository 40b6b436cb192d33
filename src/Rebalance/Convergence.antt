-- ===== src/Rebalance/Convergence.antt =====
-- Every round of the count stage lowers the sum of the squared shard counts, so they come to an end.
use qdrant_operator.Common.{
  ℕ, suc, ◌+◌, ◌*◌, ◌≤◌, List, [], ◌∷◌, ◌≡◌, ◌≢◌, arith, if◌then◌else◌, ap, Text, none, some,
  text_eq, Bool-cases, inl, inr, subst, sym, All,
}
use qdrant_operator.Qdrant.{Peer, CollectionClusterInfo}
use qdrant_operator.Rebalance.Observation.{Observation, find_text}
use qdrant_operator.Rebalance.Moves.{PlannedMove}
use qdrant_operator.Rebalance.Planner.{shards_on, count_plan, plan_rebalance}
use qdrant_operator.Rebalance.Safety.{IsCountMove}
use qdrant_operator.Rebalance.SizeSafety.{IsBalancing, plan_rebalance_safe}
use qdrant_operator.Rebalance.Energy.{relocate, Distinct, energy, energy-relocate}

some_injective {ℓ} : {A : Type ℓ} (a b : A) → some a ≡ some b → a ≡ b
some_injective a b h = ap (λ x. elim x [ some y ↦ y | none ↦ a ]) h

-- The first entry of a collection after one of its shards has changed hands.
unfoldable pub relocate_in :
    Text → ℕ → ℕ → ℕ → List (Text × CollectionClusterInfo) → List (Text × CollectionClusterInfo)
relocate_in name sid source target [] = []
relocate_in name sid source target ((j, cc) ∷ colls) =
    if text_eq j name
    then (j, record cc { shards = relocate sid source target cc.shards }) ∷ colls
    else (j, cc) ∷ relocate_in name sid source target colls

-- The observation once a move is done.
abbrev pub moved : Observation → PlannedMove → Observation
moved obs m = record obs {
  collections = relocate_in m.collection m.shard_id m.source m.target obs.collections;
}

-- The squared shard counts of all peers, over all collections.
unfoldable pub imbalance : List Peer → List (Text × CollectionClusterInfo) → ℕ
imbalance peers [] = 0
imbalance peers ((j, cc) ∷ colls) = energy (shards_on peers cc.shards) peers + imbalance peers colls

imbalance-relocate_in :
    (peers : List Peer) (name : Text) (sid source target : ℕ)
    (colls : List (Text × CollectionClusterInfo)) (cc : CollectionClusterInfo)
    → find_text name colls ≡ some cc
    → energy (shards_on peers (relocate sid source target cc.shards)) peers + 2
      ≤ energy (shards_on peers cc.shards) peers
    → imbalance peers (relocate_in name sid source target colls) + 2 ≤ imbalance peers colls
unfolding imbalance relocate_in find_text
imbalance-relocate_in peers name sid source target [] cc e h = absurd (ground (arith, e))
imbalance-relocate_in peers name sid source target ((j, c) ∷ colls) cc e h =
    elim (Bool-cases (text_eq j name)) [
      | inl t ↦
          let same = some_injective c cc (rw t at e) in
          rw t (
            let less =
              subst
                (λ x.
                  energy (shards_on peers (relocate sid source target x.shards)) peers + 2
                  ≤ energy (shards_on peers x.shards) peers)
                (sym same) h in
            omega (arith, less))
      | inr t ↦ rw t (
          let less = imbalance-relocate_in peers name sid source target colls cc (rw t at e) h in
          omega (arith, less))
    ]

-- Successive rounds of the count stage: each carries out the head of the balancing plan for what is
-- observed then.
pub data Balancing (after : Observation) : ℕ → Observation → Type 0 where
  done : Balancing after 0 after
  round :
      {n : ℕ} {obs : Observation} (m : PlannedMove) (rest : List PlannedMove)
      → count_plan obs ≢ []
      → plan_rebalance obs ≡ m ∷ rest
      → Balancing after n (moved obs m)
      → Balancing after (suc n) obs

head-IsCountMove :
    (obs : Observation) (m : PlannedMove) (rest : List PlannedMove)
    → count_plan obs ≢ []
    → plan_rebalance obs ≡ m ∷ rest
    → IsCountMove obs m
head-IsCountMove obs m rest some_left plan =
    elim (subst (All (IsBalancing obs)) plan (plan_rebalance_safe obs)).0 [
      | inl c ↦ c
      | inr (empty, s) ↦ absurd (some_left empty)
    ]

-- Over peers with different ids, twice the number of successive rounds of the count stage and the final
-- sum of squared shard counts over all collections are at most the first such sum: so the stage comes
-- to its end, if nothing else moves a shard meanwhile. Rounds by size are not counted.
pub Balancing-ends :
    (after : Observation) {n : ℕ} {obs : Observation}
    → Distinct obs.peers
    → Balancing after n obs
    → 2 * n + imbalance obs.peers after.collections ≤ imbalance obs.peers obs.collections
Balancing-ends after d done = omega arith
Balancing-ends after {obs = obs} d (round {n = n} m rest some_left plan more) =
    omega (arith, Balancing-ends after d more, lower)
  where
    c : IsCountMove obs m
    c = head-IsCountMove obs m rest some_left plan

    lower : imbalance obs.peers (moved obs m).collections + 2 ≤ imbalance obs.peers obs.collections
    lower =
        imbalance-relocate_in obs.peers m.collection m.shard_id m.source m.target obs.collections
          c.cc c.listed
          (energy-relocate obs.peers c.cc.shards m.shard_id m.source m.target d c.donor_known
            c.recip_known c.held c.gap)
