-- ===== src/Drain/Steps.antt =====
-- The steps of `planPeerDrain`, each in its case.
use qdrant_operator.Common.{
  ℕ, ◌==◌, leb, Text, true, false, none, some, List, [], ◌∷◌, ◌++◌, ◌≡◌, refl, arith,
}
use qdrant_operator.Qdrant.{Peer, ShardInfo, CollectionClusterInfo}
use qdrant_operator.Rebalance.Observation.{find_text}
use qdrant_operator.Drain.Plan.{
  Draft, best_keeper, holder_count, keep_move, drop_move, bump, place_shard, place_shards,
  place_all,
}

module _ (target : ℕ) (keepers : List Peer) (coll : Text) (shards : List ShardInfo) (sid : ℕ)
    (d : Draft) where
  pub place_kept :
      (k : Peer)
      → best_keeper shards sid d.load keepers none ≡ some k
      → place_shard target keepers coll shards sid d ≡ record {
        load = bump k.id d.load;
        moves = d.moves ++ (keep_move coll sid target k.id ∷ []);
        blocked = d.blocked;
      }
  unfolding place_shard
  place_kept k b = ground (arith, b)

  pub place_dropped :
      best_keeper shards sid d.load keepers none ≡ none
      → leb 2 (holder_count shards sid) ≡ true
      → place_shard target keepers coll shards sid d ≡ record {
        load = d.load;
        moves = d.moves ++ (drop_move coll sid target ∷ []);
        blocked = d.blocked;
      }
  unfolding place_shard
  place_dropped b two = ground (arith, b, two)

  pub place_blocked :
      best_keeper shards sid d.load keepers none ≡ none
      → leb 2 (holder_count shards sid) ≡ false
      → place_shard target keepers coll shards sid d
        ≡ record { load = d.load; moves = d.moves; blocked = true }
  unfolding place_shard
  place_blocked b one = ground (arith, b, one)

module _ (target : ℕ) (keepers : List Peer) (coll : Text) (shards : List ShardInfo) (s : ShardInfo)
    (rest : List ShardInfo) (d : Draft) where
  pub place_here :
      (s.peer_id == target) ≡ true
      → place_shards target keepers coll shards (s ∷ rest) d
        ≡ place_shards target keepers coll shards rest
            (place_shard target keepers coll shards s.shard_id d)
  unfolding place_shards
  place_here t = rw t refl

  pub place_elsewhere :
      (s.peer_id == target) ≡ false
      → place_shards target keepers coll shards (s ∷ rest) d
        ≡ place_shards target keepers coll shards rest d
  unfolding place_shards
  place_elsewhere t = rw t refl

module _ (target : ℕ) (keepers : List Peer) (colls : List (Text × CollectionClusterInfo))
    (name : Text) (names : List Text) (d : Draft) where
  pub place_unlisted :
      find_text name colls ≡ none
      → place_all target keepers colls (name ∷ names) d ≡ place_all target keepers colls names d
  unfolding place_all
  place_unlisted e = rw e refl

  pub place_listed :
      (cc : CollectionClusterInfo)
      → find_text name colls ≡ some cc
      → place_all target keepers colls (name ∷ names) d
        ≡ place_all target keepers colls names
            (place_shards target keepers name cc.shards cc.shards d)
  unfolding place_all
  place_listed cc e = rw e refl
