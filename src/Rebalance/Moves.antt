-- ===== src/Rebalance/Moves.antt =====
-- `plannedMove` of internal/controller/rebalance.go: a move, its printed form and its total order.
use qdrant_operator.Common.{
  ℕ, Ordering, compare, Text, Bool, true, false, ◌++◌, if◌then◌else◌, text_compare, format_uint,
  codes, first,
}

pub record PlannedMove : Type 0 where
  pub collection : Text
  pub shard_id : ℕ
  pub source : ℕ
  pub target : ℕ
  pub drop : Bool
  pub replicate : Bool
  pub from_count : ℕ
  pub to_count : ℕ

-- `plannedMove.String`.
unfoldable pub move_string : PlannedMove → Text
move_string m =
    let shard = m.collection ++ (codes "/" ++ format_uint m.shard_id) in
    if m.drop
    then shard ++ (codes ": drop@" ++ format_uint m.source)
    else (if m.replicate
        then shard
          ++ (codes ": +replica " ++ (format_uint m.source ++ (codes "->" ++ format_uint m.target)))
        else shard
          ++ (codes ": " ++ (format_uint m.source ++ (codes "->" ++ format_uint m.target))))

-- The comparison handed to `slices.SortFunc`: fullest donor first, then emptiest recipient, highest
-- donor id, lowest recipient id, lowest shard, first collection name.
unfoldable pub move_compare : PlannedMove → PlannedMove → Ordering
move_compare a b = first (compare b.from_count a.from_count) (
    first (compare a.to_count b.to_count) (
      first (compare b.source a.source) (
        first (compare a.target b.target)
          (first (compare a.shard_id b.shard_id) (text_compare a.collection b.collection)))))

unfoldable pub move_leb : PlannedMove → PlannedMove → Bool
unfolding move_compare
move_leb a b = elim (move_compare a b) [ Ordering.gt ↦ false | _ ↦ true ]
