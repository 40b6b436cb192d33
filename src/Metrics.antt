-- ===== src/Metrics.antt =====
-- internal/controller/metrics.go: the series that the operator exports, by the namespace and the name of
-- their object. A vector of prometheus is a dictionary from label values to a value; the values set here
-- are counts, which float64 holds exactly.
use qdrant_operator.Common.{
  ℕ, ◌&&◌, Text, Bool, true, false, Option, none, some, List, ◌≡◌, ap, ◌∙◌, length, flat_map,
  filter, text_eq, text_eq_refl, text_eq_sound, if◌then◌else◌, arith,
}
use qdrant_operator.Common.Dict
use qdrant_operator.Common.Dict.{Dict, Key}
use qdrant_operator.Qdrant.{is_dead}
use qdrant_operator.Api.Cluster.{Kind}
use qdrant_operator.Rebalance.Observation.{Observation}

-- The labels `namespace` and `name`.
abbrev pub Labels : Type 0
Labels = Text × Text

pub pair_sound :
    (a b c d : Text) → (text_eq a c && text_eq b d) ≡ true → ◌≡◌ {A = Labels} (a, b) (c, d)
pair_sound a b c d h = go (text_eq_sound a c (ground arith)) (text_eq_sound b d (ground arith))
  where
    go : a ≡ c → b ≡ d → ◌≡◌ {A = Labels} (a, b) (c, d)
    go p q = ap (λ x. (x, b)) p ∙ ap (λ y. (c, y)) q

instance abbrev pub labels_key : Key Labels
labels_key = record {
  same = λ j k. text_eq j.0 k.0 && text_eq j.1 k.1;
  same_refl = λ k. ground (arith, text_eq_refl k.0, text_eq_refl k.1);
  same_sound = λ j k h. pair_sound j.0 j.1 k.0 k.1 h;
}

-- The counter of operations has the kind as a third label.
pub record OperationSeries : Type 0 where
  pub labels : Labels
  pub kind : Kind
  pub count : ℕ

pub record Metrics : Type 0 where
  pub backup_last_success : Dict Labels ℕ
  pub backup_snapshots : Dict Labels ℕ
  pub dead_replicas : Dict Labels ℕ
  pub planned_moves : Dict Labels ℕ
  pub peers : Dict Labels ℕ
  pub upgrade_in_progress : Dict Labels ℕ
  pub shard_operations : List OperationSeries
  pub shard_operation_failures : Dict Labels ℕ

unfoldable pub bool_gauge : Bool → ℕ
bool_gauge b = if b then 1 else 0

-- All dead replicas that were observed.
unfoldable pub dead_count : Observation → ℕ
unfolding is_dead
dead_count obs = length (flat_map (λ e. filter (λ s. is_dead s.state) e.1.shards) obs.collections)

-- What is not observed keeps its last value.
abbrev pub observed_metrics : Labels → Option Observation → Metrics → Metrics
observed_metrics l none m = m
observed_metrics l (some obs) m = record m {
  peers = Dict.put l (length obs.peers) m.peers;
  dead_replicas = Dict.put l (dead_count obs) m.dead_replicas;
}

unfoldable pub cluster_metrics : Metrics → Labels → Option Observation → ℕ → Bool → Metrics
unfolding bool_gauge dead_count Dict.put
cluster_metrics m l obs planned upgrading = observed_metrics l obs (record m {
  planned_moves = Dict.put l planned m.planned_moves;
  upgrade_in_progress = Dict.put l (bool_gauge upgrading) m.upgrade_in_progress;
})

-- `DeletePartialMatch`: the series of every kind.
unfoldable pub without_series : Labels → List OperationSeries → List OperationSeries
without_series l series = filter (λ s. if labels_key.same s.labels l then false else true) series

unfoldable pub forget_cluster : Metrics → Labels → Metrics
unfolding without_series Dict.remove
forget_cluster m l = record m {
  planned_moves = Dict.remove l m.planned_moves;
  peers = Dict.remove l m.peers;
  dead_replicas = Dict.remove l m.dead_replicas;
  upgrade_in_progress = Dict.remove l m.upgrade_in_progress;
  shard_operation_failures = Dict.remove l m.shard_operation_failures;
  shard_operations = without_series l m.shard_operations;
}

unfoldable pub forget_backup : Metrics → Labels → Metrics
unfolding Dict.remove
forget_backup m l = record m {
  backup_last_success = Dict.remove l m.backup_last_success;
  backup_snapshots = Dict.remove l m.backup_snapshots;
}

-- A cluster that is forgotten has none of its gauges left, and those of other objects stay.
pub lookup-forget_cluster :
    (m : Metrics) (l k : Labels)
    → let left : Dict Labels ℕ → Option ℕ =
        λ d. if labels_key.same l k then none else Dict.lookup k d in
      (Dict.lookup k (forget_cluster m l).planned_moves ≡ left m.planned_moves)
      × (Dict.lookup k (forget_cluster m l).peers ≡ left m.peers)
      × (Dict.lookup k (forget_cluster m l).dead_replicas ≡ left m.dead_replicas)
      × (Dict.lookup k (forget_cluster m l).upgrade_in_progress ≡ left m.upgrade_in_progress)
unfolding forget_cluster
lookup-forget_cluster m l k = (
  Dict.lookup-remove l k m.planned_moves,
  Dict.lookup-remove l k m.peers,
  Dict.lookup-remove l k m.dead_replicas,
  Dict.lookup-remove l k m.upgrade_in_progress,
)
