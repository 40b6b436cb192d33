-- ===== src/Rebalance/Observation.antt =====
-- The observation that planner and executor read (internal/controller/rebalance.go): the snapshot of
-- peers and collections, and the tests that gate every automatic action.
use qdrant_operator.Common.{
  ℕ, ◌+◌, ◌==◌, Text, Bool, not, ◌&&◌, Option, none, some, List, [], ◌∷◌, map, length, any, all,
  if◌then◌else◌, text_eq, text_leb, sort,
}
use qdrant_operator.Qdrant.{Peer, ShardInfo, CollectionClusterInfo, is_active, is_dead}

-- A Go map is a list of its entries; where a key stood twice, the first entry counts.
pub record Observation : Type 0 where
  pub peers : List Peer
  pub collections : List (Text × CollectionClusterInfo)
  pub rf : List (Text × ℕ)
  pub sizes : List (Text × List (ℕ × ℕ))
  pub sizes_complete : Bool

module _ {ℓ} {V : Type ℓ} where
  unfoldable pub find_text : Text → List (Text × V) → Option V
  find_text k [] = none
  find_text k ((j, v) ∷ m) = if text_eq j k then some v else find_text k m

  unfoldable pub find_id : ℕ → List (ℕ × V) → Option V
  find_id k [] = none
  find_id k ((j, v) ∷ m) = if j == k then some v else find_id k m

  unfoldable pub keys : List (Text × V) → List Text
  keys m = map (λ e. e.0) m

-- A missing key of a map of numbers reads as zero.
abbrev pub or_zero : Option ℕ → ℕ
or_zero none = 0
or_zero (some n) = n

-- `obs.RF[coll]`.
unfoldable pub rf_of : Observation → Text → ℕ
unfolding find_text
rf_of obs coll = or_zero (find_text coll obs.rf)

-- `obs.Sizes[coll][shard]`.
unfoldable pub size_of : Observation → Text → ℕ → ℕ
unfolding find_text find_id
size_of obs coll sid = elim (find_text coll obs.sizes) [
  | none ↦ 0
  | some m ↦ or_zero (find_id sid m)
]

-- The collection names, sorted, as every planner walks them.
unfoldable pub sorted_names : Observation → List Text
unfolding sort keys
sorted_names obs = sort text_leb (keys obs.collections)

-- `len(cc.Transfers)` summed over the collections.
unfoldable pub count_transfers : List (Text × CollectionClusterInfo) → ℕ
count_transfers [] = 0
count_transfers ((name, cc) ∷ m) = length cc.transfers + count_transfers m

unfoldable pub transfers_in_flight : Observation → ℕ
transfers_in_flight obs = count_transfers obs.collections

abbrev pub any_shard : (ShardInfo → Bool) → Observation → Bool
any_shard test obs = any (λ e. any test e.1.shards) obs.collections

unfoldable pub all_shards_active : Observation → Bool
unfolding is_active
all_shards_active obs = all (λ e. all (λ s. is_active s.state) e.1.shards) obs.collections

unfoldable pub transitioning : Observation → Bool
unfolding is_active is_dead
transitioning obs = any_shard (λ s. not (is_active s.state) && not (is_dead s.state)) obs

unfoldable pub has_dead : Observation → Bool
unfolding is_dead
has_dead obs = any_shard (λ s. is_dead s.state) obs

-- `holders[shard][peer]`: some entry puts the shard on the peer.
unfoldable pub holds : List ShardInfo → ℕ → ℕ → Bool
holds shards sid pid = any (λ s. s.shard_id == sid && s.peer_id == pid) shards

unfoldable pub holds_active : List ShardInfo → ℕ → ℕ → Bool
unfolding is_active
holds_active shards sid pid =
    any (λ s. (s.shard_id == sid && s.peer_id == pid) && is_active s.state) shards

-- `deadHolders(coll)[shard][peer]`.
unfoldable pub holds_dead : List ShardInfo → ℕ → ℕ → Bool
unfolding is_dead
holds_dead shards sid pid =
    any (λ s. (s.shard_id == sid && s.peer_id == pid) && is_dead s.state) shards

unfoldable pub is_member : List Peer → ℕ → Bool
is_member peers pid = any (λ p. p.id == pid) peers
