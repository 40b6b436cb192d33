-- ===== src/NodeFailure.antt =====
-- internal/controller/nodefailure.go: pods stranded on a dead node are deleted, one in a pass. Pods and
-- nodes are what apiserver answers.
pub mod Restraint
mod Tests
use qdrant_operator.Common.{
  ℕ, ◌-◌, ltb, Text, Bool, true, false, not, ◌&&◌, Option, none, some, List, [], ◌∷◌, is_empty,
  if◌then◌else◌,
}
use qdrant_operator.Pass.{minutes}

pub record Pod : Type 0 where
  pub name : Text
  pub node_name : Text

-- A condition of a node: whether it is the one of type Ready, whether it is true, and since when.
pub record NodeCondition : Type 0 where
  pub is_ready_type : Bool
  pub status : Bool
  pub last_transition : ℕ

pub data NodeLookup : Type 0 where
  found : List NodeCondition → NodeLookup
  not_found failed : NodeLookup

-- A deletion succeeds, finds nothing (which counts as success) or fails.
pub data Deletion : Type 0 where
  deleted gone refused : Deletion

abbrev pub node_failure_grace : ℕ
node_failure_grace = minutes 6

-- The first condition of type Ready decides; without one nothing is known.
unfoldable pub ready_since : List NodeCondition → Bool × ℕ
ready_since [] = (false, 0)
ready_since (c ∷ cs) =
    if c.is_ready_type
    then (if c.status then (false, 0) else (true, c.last_transition))
    else ready_since cs

-- Down, and since when. A node that is gone has been down since the zero time.
unfoldable pub node_down : NodeLookup → Bool × ℕ
node_down (found cs) = ready_since cs
node_down not_found = (true, 0)
node_down failed = (false, 0)

unfoldable pub is_stuck : (Text → NodeLookup) → ℕ → Pod → Bool
is_stuck nodes now pod =
    let d = node_down (nodes pod.node_name) in
    not (is_empty pod.node_name) && (d.0 && not (ltb (now - d.1) node_failure_grace))

abbrev removed : Deletion → Bool
removed refused = false
removed _ = true

-- The number of pods deleted, and the pod that was tried.
unfoldable pub delete_first : (Text → NodeLookup) → ℕ → (Pod → Deletion) → List Pod → ℕ × Option Pod
delete_first nodes now delete [] = (0, none)
delete_first nodes now delete (pod ∷ pods) =
    let rest = delete_first nodes now delete pods in
    if is_stuck nodes now pod
    then (if removed (delete pod) then (1, some pod) else (0, some pod))
    else rest

-- `pods` is none where listing them fails.
unfoldable pub reconcile_stuck_pods :
    ℕ → Option (List Pod) → (Text → NodeLookup) → ℕ → (Pod → Deletion) → ℕ × Option Pod
reconcile_stuck_pods replicas none nodes now delete = (0, none)
reconcile_stuck_pods replicas (some pods) nodes now delete =
    let r = delete_first nodes now delete pods in if ltb replicas 2 then (0, none) else r
