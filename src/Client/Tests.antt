-- ===== src/Client/Tests.antt =====
-- The theorems on the client at a small server.
use qdrant_operator.Common.{
  ℕ, true, none, some, [], ◌∷◌, ◌≡◌, ◌↔◌, refl, sym, ◌∙◌, subst, Memᴰ, arith, codes, IsStrict,
  format_uint, format_digits, text_eq,
}
use mathlib.Core.List.{Permᴰ}
use qdrant_operator.Qdrant.{Peer}
use qdrant_operator.Client.{HttpClient, Codec, response, reply, NodeWire, PlacementWire, do_json}
use qdrant_operator.Client.Observing.{by_id, cluster_info, placed, collection_cluster}
use qdrant_operator.Client.Membership.{spelled, cluster_info-spelled}
use qdrant_operator.Client.Holders.{holds-collection_cluster}
use qdrant_operator.Client.Successes.{deletion, run, asked, is_success, is_taken, run-is_success}
use qdrant_operator.Rebalance.Observation.{holds}

abbrev low : Peer
low = record { id = 2; uri = codes "http://db-0:6335/" }

abbrev high : Peer
high = record { id = 10; uri = codes "http://db-1:6335/" }

abbrev node : NodeWire
node = record {
  status = codes "enabled";
  peer_id = 2;
  peers = (codes "10", codes "http://db-1:6335/") ∷ (codes "2", codes "http://db-0:6335/") ∷ [];
  leader = 2;
  pending_operations = 0;
}

abbrev placement : PlacementWire
placement = record {
  peer_id = 2;
  shard_count = 2;
  local_shards = (record { shard_id = 0; points_count = 7; state = codes "Active" }) ∷ [];
  remote_shards = (record { shard_id = 1; peer_id = 10; state = codes "Dead" }) ∷ [];
  shard_transfers = [];
}

abbrev codec : Codec
codec = record {
  envelope = λ b. some b;
  collection = λ b. none;
  names = λ b. none;
  node = λ b. some node;
  placement = λ b. some placement;
  page = λ b. none;
  aliases = λ b. none;
  snapshots = λ b. none;
}

-- A server that answers every request with the same code.
abbrev client : ℕ → HttpClient
client code = record {
  base_url = codes "http://db.ns.svc:6333";
  send = λ q. response code [];
  codec = codec;
  path_escape = λ t. t;
}

apart : IsStrict by_id (high ∷ low ∷ [])
apart a b (Memᴰ.head e) (Memᴰ.head d) h k = e ∙ sym d
apart a b (Memᴰ.head e) (Memᴰ.tail (Memᴰ.head d)) h k =
    absurd (backwards (subst (λ x. by_id x low ≡ true) e (subst (λ y. by_id a y ≡ true) d h)))
  where
    backwards : by_id high low ≡ true → ⊥
    backwards w = ground arith
apart a b (Memᴰ.tail (Memᴰ.head e)) (Memᴰ.head d) h k =
    absurd (backwards (subst (λ x. by_id high x ≡ true) e (subst (λ y. by_id y a ≡ true) d k)))
  where
    backwards : by_id high low ≡ true → ⊥
    backwards w = ground arith
apart a b (Memᴰ.tail (Memᴰ.head e)) (Memᴰ.tail (Memᴰ.head d)) h k = e ∙ sym d
apart a b (Memᴰ.tail (Memᴰ.tail m)) n h k = elim m [ ]
apart a b m (Memᴰ.tail (Memᴰ.tail n)) h k = elim n [ ]

cluster_info-spelled_example :
    cluster_info (client 200)
    ≡ reply (record {
      enabled = true;
      peer_id = 2;
      peers = low ∷ high ∷ [];
      raft_leader = 2;
      pending_operations = 0;
    })
unfolding do_json spelled format_uint format_digits text_eq
cluster_info-spelled_example =
    cluster_info-spelled (client 200) node (low ∷ high ∷ []) (high ∷ low ∷ [])
      (omega arith, (omega arith, tt)) ((refl, tt), (tt, tt)) apart (Permᴰ.swap refl refl) refl refl

holds-collection_cluster_example : holds (placed placement).shards 1 10 ≡ true
unfolding do_json collection_cluster
holds-collection_cluster_example =
    holds-collection_cluster (client 200) (codes "docs") placement (placed placement) 1 10 refl refl

run-is_success_example : (run (client 404) (deletion (codes "docs")) ≡ reply tt) ↔ (
    is_taken
      (is_success (deletion (codes "docs")))
      ((client 404).send (asked (client 404) (deletion (codes "docs"))))
    ≡ true)
run-is_success_example = run-is_success (client 404) (deletion (codes "docs"))
