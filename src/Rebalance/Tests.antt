-- ===== src/Rebalance/Tests.antt =====
-- The theorems on rebalancing, at concrete clusters.
use qdrant_operator.Common.{
  text_eq, ◌+◌, ◌*◌, ◌≤◌, true, false, none, some, List, [], ◌∷◌, ◌≡◌, refl, Memᴰ, sort, ◌∙◌, subst,
  sym, ap, Text, ℕ, inl, inr, Bool-cases, arith, All, ◌⊎◌, min,
}
use qdrant_operator.Qdrant.{active, dead, CollectionClusterInfo, ShardInfo, is_dead, is_active}
use qdrant_operator.Api.Cluster.{Kind, MoveStatus}
use qdrant_operator.Pass.{seconds, minutes}
use qdrant_operator.Rebalance.Observation.{
  Observation, find_text, holds, holds_active, holds_dead, transfers_in_flight, count_transfers,
  is_member, rf_of, sorted_names, keys, has_dead,
}
use qdrant_operator.Rebalance.Moves.{PlannedMove}
use qdrant_operator.Rebalance.Planner.{
  count_plan, plan_rebalance, shards_on, candidates, candidate, movable,
}
use qdrant_operator.Rebalance.Repair.{plan_replications, plan_dead_drops, active_count, drop_of}
use qdrant_operator.Rebalance.Backoff.{backoff}
use qdrant_operator.Rebalance.Executor.{
  reconcile_rebalance, settle_active_move, issue_active_move, move_record, settled, lost,
}
use qdrant_operator.Rebalance.Operations.{operations}
use qdrant_operator.Rebalance.SizeSafety.{IsBalancing, plan_rebalance_safe}
use qdrant_operator.Rebalance.Convergence.{done, round, moved, Balancing-ends, imbalance}
use qdrant_operator.Rebalance.Completeness.{count_plan_complete}
use qdrant_operator.Rebalance.RepairSafety.{
  IsReplication, IsDeadDrop, plan_replications_safe, plan_dead_drops_safe,
}
use qdrant_operator.Rebalance.Durability.{
  plan_dead_drops_complete, IsHarmless, plan_dead_drops-IsHarmless,
}
use qdrant_operator.Rebalance.Lane.{settle_frees_lane}
use qdrant_operator.Rebalance.Delay.{backoff_bounds, backoff_doubles}
use qdrant_operator.Rebalance.Issue.{IsIssue-cases, IsIssue, IsRefused}
use qdrant_operator.Rebalance.Stepwise.{one_safe_operation, IsOneOperation}
use qdrant_operator.Fixtures.{
  condition_list, docs, first_peer, second_peer, shard_at, placed, seen, cluster_with, start_pass,
  all_accepted,
}

-- Both shards lie on the first peer.
abbrev skewed : Observation
skewed = seen (shard_at 0 11 active ∷ shard_at 1 11 active ∷ []) 1

-- Shard 0 has a dead replica.
abbrev half_dead : Observation
half_dead = seen (shard_at 0 11 active ∷ shard_at 0 12 dead ∷ []) 1

abbrev skewed_move : PlannedMove
skewed_move = record {
  collection = docs;
  shard_id = 0;
  source = 11;
  target = 12;
  drop = false;
  replicate = false;
  from_count = 2;
  to_count = 0;
}

plan_rebalance_safe_example : All (IsBalancing skewed) (plan_rebalance skewed)
plan_rebalance_safe_example = plan_rebalance_safe skewed

plan_replications_safe_example :
    All
      (IsReplication (seen (shard_at 0 11 active ∷ []) 2))
      (plan_replications (seen (shard_at 0 11 active ∷ []) 2))
plan_replications_safe_example = plan_replications_safe (seen (shard_at 0 11 active ∷ []) 2)

plan_dead_drops_safe_example : All (IsDeadDrop half_dead) (plan_dead_drops half_dead)
plan_dead_drops_safe_example = plan_dead_drops_safe half_dead

plan_dead_drops_complete_example : Memᴰ (drop_of docs 0 12) (plan_dead_drops half_dead)
unfolding find_text rf_of active_count is_dead is_active text_eq
plan_dead_drops_complete_example =
    plan_dead_drops_complete half_dead docs
      (placed (shard_at 0 11 active ∷ shard_at 0 12 dead ∷ [])) (shard_at 0 12 dead) refl
      (Memᴰ.tail (Memᴰ.head refl)) refl (ground arith)

-- The second peer holds the one shard of the first as well, twice over: nothing is left to move.
abbrev doubled : List ShardInfo
doubled =
    shard_at 0 11 active ∷ shard_at 0 11 active ∷ shard_at 0 11 active ∷ shard_at 0 12 active ∷ []

count_plan-doubled : count_plan (seen doubled 1) ≡ []
unfolding count_plan text_eq
count_plan-doubled = refl

count_plan_complete_example : holds doubled 0 12 ≡ true
unfolding shards_on find_text text_eq
count_plan_complete_example =
    count_plan_complete (seen doubled 1) count_plan-doubled docs (placed doubled) first_peer
      second_peer (shard_at 0 11 active) refl (Memᴰ.head refl) (Memᴰ.tail (Memᴰ.head refl))
      (ground arith) (Memᴰ.head refl) refl

one_state :
    (coll : Text) (cc : CollectionClusterInfo) (sid pid : ℕ)
    → find_text coll half_dead.collections ≡ some cc
    → holds_dead cc.shards sid pid ≡ true
    → holds_active cc.shards sid pid ≡ false
unfolding find_text holds_dead holds_active is_active is_dead
one_state coll cc sid pid e d = elim (Bool-cases (text_eq docs coll)) [
  | inl t ↦
      subst (λ (c : CollectionClusterInfo). holds_active c.shards sid pid ≡ false)
        (same (rw t at e))
        (apart (
          subst (λ (c : CollectionClusterInfo). holds_dead c.shards sid pid ≡ true)
            (sym (same (rw t at e))) d))
  | inr t ↦ absurd (ground (arith, t, e))
]
  where
    two : CollectionClusterInfo
    two = placed (shard_at 0 11 active ∷ shard_at 0 12 dead ∷ [])

    same : some two ≡ some cc → two ≡ cc
    same h = ap (λ x. elim x [ some y ↦ y | none ↦ two ]) h

    apart : holds_dead two.shards sid pid ≡ true → holds_active two.shards sid pid ≡ false
    apart h = ground (arith, h)

plan_dead_drops-IsHarmless_example : All (IsHarmless half_dead) (plan_dead_drops half_dead)
plan_dead_drops-IsHarmless_example = plan_dead_drops-IsHarmless half_dead one_state

skewed-count_plan : count_plan skewed ≡ skewed_move ∷ []
unfolding count_plan candidates candidate movable shards_on holds is_member sorted_names find_text
    text_eq keys sort
skewed-count_plan = refl

skewed_plan : plan_rebalance skewed ≡ skewed_move ∷ []
unfolding plan_rebalance count_plan candidates candidate movable shards_on holds is_member
    sorted_names find_text text_eq keys sort has_dead is_dead
skewed_plan = refl

Balancing-ends_example :
    2 * 1 + imbalance skewed.peers (moved skewed skewed_move).collections
    ≤ imbalance skewed.peers skewed.collections
unfolding is_member
Balancing-ends_example =
    Balancing-ends (moved skewed skewed_move) (refl, (refl, tt))
      (round {obs = skewed} skewed_move [] (λ e. absurd (let h = sym skewed-count_plan ∙ e in cc))
        skewed_plan done)

abbrev old_move : MoveStatus
old_move = move_record 0 skewed_move Kind.rebalance

settle_frees_lane_example :
    ((settle_active_move condition_list
        (minutes 2)
        (start_pass (cluster_with 2 (some old_move)))
        skewed).pass.cluster.status.active_move
      ≡ none)
    × (((settle_active_move condition_list
            (minutes 2)
            (start_pass (cluster_with 2 (some old_move)))
            skewed).state
          ≡ settled)
        ⊎ ((settle_active_move condition_list
              (minutes 2)
              (start_pass (cluster_with 2 (some old_move)))
              skewed).state
            ≡ lost))
unfolding transfers_in_flight count_transfers move_record
settle_frees_lane_example =
    settle_frees_lane condition_list (minutes 2) (start_pass (cluster_with 2 (some old_move)))
      skewed old_move refl refl (λ t e. ground (arith, e))

backoff_bounds_example : (seconds 30 ≤ backoff 3) × (backoff 3 ≤ minutes 10)
backoff_bounds_example = backoff_bounds 3 (ground arith)

backoff_doubles_example : (backoff 1 ≡ seconds 30) × (backoff 4 ≡ min (backoff 3 * 2) (minutes 10))
backoff_doubles_example = backoff_doubles 2 (ground arith)

IsIssue-cases_example :
    IsRefused all_accepted 7
      (start_pass (cluster_with 2 none))
      (issue_active_move condition_list all_accepted 7
        (start_pass (cluster_with 2 none))
        skewed_move
        Kind.rebalance).0
      skewed_move
      Kind.rebalance
    ⊎ IsIssue condition_list all_accepted 7
        (start_pass (cluster_with 2 none))
        (issue_active_move condition_list all_accepted 7
          (start_pass (cluster_with 2 none))
          skewed_move
          Kind.rebalance).0
        skewed_move
        Kind.rebalance
IsIssue-cases_example =
    IsIssue-cases condition_list all_accepted 7 (start_pass (cluster_with 2 none)) skewed_move
      Kind.rebalance

one_safe_operation_example :
    (operations
        (reconcile_rebalance condition_list all_accepted 7
          (start_pass (cluster_with 2 none))
          skewed).pass.calls
      ≡ operations [])
    ⊎ IsOneOperation condition_list all_accepted 7 (start_pass (cluster_with 2 none)) skewed
one_safe_operation_example =
    one_safe_operation condition_list all_accepted 7 (start_pass (cluster_with 2 none)) skewed
