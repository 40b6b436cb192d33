-- ===== src/Rebalance/Priority.antt =====
-- The order of a balancing plan, told without the comparison that it is sorted by.
use qdrant_operator.Common.{
  ℕ, ◌<◌, Ordering, Bool, true, false, List, [], ◌∷◌, ◌≡◌, All, ◌⊎◌, text_leb,
}
use qdrant_operator.Rebalance.Observation.{Observation}
use qdrant_operator.Rebalance.Moves.{PlannedMove}

-- The smaller number decides; between equal ones the rest does.
abbrev pub Lex : ℕ → ℕ → Type 0 → Type 0
Lex x y R = (x < y) ⊎ ((x ≡ y) × R)

-- `a` is due no later than `b`: its donor holds more shards; or as many, and its recipient holds fewer;
-- then the higher id of the donor decides, the lower id of the recipient, the lower shard, the name.
abbrev pub IsPrior : PlannedMove → PlannedMove → Type 0
IsPrior a b = Lex b.from_count a.from_count (
    Lex a.to_count b.to_count (
      Lex b.source a.source (
        Lex a.target b.target
          (Lex a.shard_id b.shard_id (text_leb a.collection b.collection ≡ true)))))

-- Every move is due no later than those behind it.
abbrev pub IsRanked : List PlannedMove → Type 0
IsRanked [] = Unit
IsRanked (m ∷ ms) = All (IsPrior m) ms × IsRanked ms

abbrev no_later : Ordering → Bool
no_later o = elim o as (λ x. Bool) [ Ordering.gt ↦ false | _ ↦ true ]
