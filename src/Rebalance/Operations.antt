-- ===== src/Rebalance/Operations.antt =====
-- The calls of a pass that change shards or peers, apart from status updates and events.
use qdrant_operator.Common.{
  Bool, true, false, List, [], ◌∷◌, ◌++◌, ◌≡◌, arith, filter, if◌then◌else◌,
}
use qdrant_operator.Pass.{Call, update_status, event}
use qdrant_operator.Rebalance.Moves.{PlannedMove}
use qdrant_operator.Rebalance.Executor.{move_call}

unfoldable pub is_operation : Call → Bool
is_operation (update_status s) = false
is_operation (event r) = false
is_operation _ = true

unfoldable pub operations : List Call → List Call
operations calls = filter is_operation calls

abbrev operation_list : Call → List Call
operation_list c = if is_operation c then c ∷ [] else []

pub operations-called :
    (calls : List Call) (c : Call)
    → operations (calls ++ (c ∷ [])) ≡ operations calls ++ operation_list c
unfolding operations
operations-called [] c = ground arith
operations-called (x ∷ calls) c = ground (arith, operations-called calls c)

pub is_operation-move_call : (mv : PlannedMove) → is_operation (move_call mv) ≡ true
unfolding is_operation move_call
is_operation-move_call mv = ground arith
