-- ===== src/Pass.antt =====
-- One pass of a controller over a `QdrantCluster`: the object as it is changed in memory, and every
-- call that leaves the controller, in order. What the calls answer is a parameter, since apiserver
-- and qdrant are not part of the repository.
use qdrant_operator.Common.{ℕ, ◌*◌, Text, Bool, List, [], ◌∷◌, ◌++◌}
use qdrant_operator.Api.Conditions.{ConditionType, ConditionLib, Reason}
use qdrant_operator.Api.Cluster.{ClusterStatus, QdrantCluster}

pub data Call : Type 0 where
  update_status : ClusterStatus → Call
  move_shard : Text → ℕ → ℕ → ℕ → Call
  replicate_shard : Text → ℕ → ℕ → ℕ → Call
  drop_replica : Text → ℕ → ℕ → Call
  remove_peer : ℕ → Bool → Call
  update_replicas : ℕ → Call
  event : Reason → Call

pub record Pass : Type 0 where
  pub cluster : QdrantCluster
  pub calls : List Call

-- Whether each call succeeds.
pub record Answers : Type 0 where
  pub status_update : ClusterStatus → Bool
  pub shard_operation : Call → Bool
  pub replicas_update : ℕ → Bool

abbrev pub called : Pass → Call → Pass
called p c = record p { calls = p.calls ++ (c ∷ []) }

abbrev pub with_status : QdrantCluster → ClusterStatus → QdrantCluster
with_status qc s = record qc { status = s }

abbrev pub set_status : Pass → ClusterStatus → Pass
set_status p s = record p { cluster = with_status p.cluster s }

-- `meta.SetStatusCondition(&qc.Status.Conditions, …)` with the object's generation.
unfoldable pub set_condition : ConditionLib → Pass → ConditionType → Bool → Reason → Pass
set_condition lib p t value reason =
    let s = p.cluster.status in
    set_status p (record s {
      conditions = lib.set_status_condition s.conditions (record {
        type = t;
        status = value;
        reason = reason;
        observed_generation = p.cluster.generation;
      });
    })

-- Durations and times, in nanoseconds.
abbrev pub seconds : ℕ → ℕ
seconds n = n * 1000000000

abbrev pub minutes : ℕ → ℕ
minutes n = n * 60000000000
