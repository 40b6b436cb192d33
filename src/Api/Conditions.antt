-- ===== src/Api/Conditions.antt =====
-- `metav1.Condition` without its message and transition time, and the two functions of apimachinery's
-- meta package that the controllers call on lists of them. That package is not part of the
-- repository: it is a parameter, with its documented behaviour as laws.
use qdrant_operator.Common.{ℕ, ◌≡◌, ◌≢◌, Bool, Option, some, List}

-- `condReady`, `condDegraded`, `condProgressing`.
pub data ConditionType : Type 0 where
  ready degraded progressing : ConditionType

-- The reasons of conditions and of events.
pub data Reason : Type 0 where
  move_completed move_failed balanced drain_blocked immutable_field_changed : Reason
  tls_secret_missing auth_without_tls upgrading provisioning all_replicas_ready : Reason
  peers_joining rebalancing stable shard_move_issued replica_drop_issued : Reason
  shard_replicate_issued drain_shrunk drain_peer_removed stuck_pod_deleted : Reason
  cluster_not_found schedule_invalid snapshot_failed backup_completed : Reason
  snapshot_issued snapshot_pruned prune_failed qdrant_unreachable : Reason
  no_snapshot_refs restore_failed restore_completed restore_issued : Reason
  ensured healthy create_failed collection_created collection_adopted : Reason
  alias_failed reshard_required params_mismatch delete_failed : Reason
  collection_deleted reshard_started reshard_failed reshard_aborted : Reason
  source_mutated shadow_conflict source_disposal_retry source_deleted : Reason
  source_retained reshard_completed : Reason

pub record Condition : Type 0 where
  pub type : ConditionType
  pub status : Bool
  pub reason : Reason
  pub observed_generation : ℕ

pub record ConditionLib : Type 0 where
  pub set_status_condition : List Condition → Condition → List Condition
  pub find_status_condition : List Condition → ConditionType → Option Condition
  pub is_status_condition_true : List Condition → ConditionType → Bool
  -- A condition that was set is found, and no other type is touched.
  pub find_set :
      (cs : List Condition) (c : Condition)
      → find_status_condition (set_status_condition cs c) c.type ≡ some c
  pub find_set_other :
      (cs : List Condition) (c : Condition) (t : ConditionType)
      → t ≢ c.type
      → find_status_condition (set_status_condition cs c) t ≡ find_status_condition cs t
