-- ===== src/Client/Holders.antt =====
-- What the planner's questions mean for an answer of `CollectionCluster`.
use qdrant_operator.Common.{
  ℕ, ◌==◌, Text, Bool, ◌&&◌, ◌||◌, none, List, [], ◌∷◌, map, ◌++◌, ◌≡◌, refl, sym, ap, ◌∙◌, arith,
  any, codes,
}
use qdrant_operator.Qdrant.{ShardInfo, CollectionClusterInfo}
use qdrant_operator.Client.{
  HttpClient, reply, reply_injective, http_get, do_json, LocalShard, RemoteShard, PlacementWire,
}
use qdrant_operator.Client.Observing.{
  local_info, remote_info, placed, placement_of, collection_cluster,
}
use qdrant_operator.Rebalance.Observation.{holds}

any-append {ℓ} :
    {A : Type ℓ} (p : A → Bool) (xs ys : List A) → any p (xs ++ ys) ≡ (any p xs || any p ys)
any-append p [] ys = refl
any-append p (x ∷ xs) ys = ground (arith, any-append p xs ys)

-- Only the peer that answers holds its local shards.
holds-local :
    (self sid pid : ℕ) (shards : List LocalShard)
    → holds (map (local_info self) shards) sid pid
      ≡ ((self == pid) && any (λ s. s.shard_id == sid) shards)
unfolding holds
holds-local self sid pid [] = ground arith
holds-local self sid pid (s ∷ shards) = ground (arith, holds-local self sid pid shards)

holds-remote :
    (sid pid : ℕ) (shards : List RemoteShard)
    → holds (map remote_info shards) sid pid
      ≡ any (λ s. s.shard_id == sid && s.peer_id == pid) shards
unfolding holds
holds-remote sid pid [] = refl
holds-remote sid pid (s ∷ shards) =
    ap (λ b. (s.shard_id == sid && s.peer_id == pid) || b) (holds-remote sid pid shards)

holds-append :
    (sid pid : ℕ) (xs ys : List ShardInfo)
    → holds (xs ++ ys) sid pid ≡ (holds xs sid pid || holds ys sid pid)
unfolding holds
holds-append sid pid xs ys = any-append (λ s. s.shard_id == sid && s.peer_id == pid) xs ys

holds-placed :
    (r : PlacementWire) (sid pid : ℕ)
    → holds (placed r).shards sid pid ≡ (
        ((r.peer_id == pid) && any (λ s. s.shard_id == sid) r.local_shards)
        || any (λ s. s.shard_id == sid && s.peer_id == pid) r.remote_shards)
holds-placed r sid pid =
    rw
      (
        holds-append sid pid (map (local_info r.peer_id) r.local_shards)
            (map remote_info r.remote_shards),
        holds-local r.peer_id sid pid r.local_shards,
        holds-remote sid pid r.remote_shards,
      )
      refl

module _ (c : HttpClient) (name : Text) (r : PlacementWire) (info : CollectionClusterInfo) where
  -- As the client reports it, a peer holds a shard if it is the one that answered and lists the shard
  -- as local, or if the shard is listed as remote on that peer.
  pub holds-collection_cluster :
      (sid pid : ℕ)
      → do_json c http_get
          (codes "/collections/" ++ (name ++ codes "/cluster"))
          none
          c.codec.placement
        ≡ reply r
      → collection_cluster c name ≡ reply info
      → holds info.shards sid pid ≡ (
          ((r.peer_id == pid) && any (λ s. s.shard_id == sid) r.local_shards)
          || any (λ s. s.shard_id == sid && s.peer_id == pid) r.remote_shards)
  unfolding collection_cluster
  holds-collection_cluster sid pid answered seen =
      ap (λ i. holds i.shards sid pid) (sym same) ∙ holds-placed r sid pid
    where
      same : placed r ≡ info
      same = reply_injective (placed r) info (sym (ap placement_of answered) ∙ seen)
