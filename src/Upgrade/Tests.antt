-- ===== src/Upgrade/Tests.antt =====
-- The theorems on rolling upgrades, at a concrete StatefulSet.
use qdrant_operator.Common.{◌+◌, ◌-◌, ◌≤◌, none, some, refl, codes, text_eq}
use qdrant_operator.Upgrade.{StatefulSet, rollout_in_progress, upgrade_partition}
use qdrant_operator.Upgrade.Order.{partition_one_at_a_time}

abbrev upgrading : StatefulSet
upgrading = record {
  update_revision = codes "b";
  current_revision = codes "a";
  updated_replicas = 0;
  ready_replicas = 2;
}

partition_one_at_a_time_example :
    (upgrade_partition (some upgrading) 2 none ≤ 2 - 0)
    × (2 ≤ upgrade_partition (some upgrading) 2 none + 0 + 1)
unfolding rollout_in_progress text_eq
partition_one_at_a_time_example = partition_one_at_a_time upgrading 2 none refl
