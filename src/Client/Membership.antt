-- ===== src/Client/Membership.antt =====
-- Whatever order Go walks the peers of an answer in, the client lists them by their ids.
use qdrant_operator.Common.{
  ℕ, ◌<◌, ◌^◌, Text, none, some, List, [], ◌∷◌, map, ◌≡◌, refl, ap, ◌∙◌, arith, All, sort,
  sort-sorted, sort-permuted, IsStrict, IsSorted, IsOrder, format_uint, is_empty-format_uint,
  parse_digits-format_uint, codes, text_eq,
}
use mathlib.Core.List.{Permᴰ}
use qdrant_operator.Common.Dict.{Dict}
use qdrant_operator.Qdrant.{Peer}
use qdrant_operator.Client.{HttpClient, reply, http_get, do_json, NodeWire}
use qdrant_operator.Client.Observing.{parse_uint64, peers_of, by_id, cluster_info}

parse_uint64-format_uint : (n : ℕ) → n < 2 ^ 64 → parse_uint64 (format_uint n) ≡ some n
unfolding parse_uint64
parse_uint64-format_uint n h =
    rw (is_empty-format_uint n)
      (parse_digits-format_uint 18446744073709551616 n (omega arith) (omega arith))

-- Peers as qdrant names them: by the decimal text of the id.
unfoldable pub spelled : List Peer → Dict Text Text
spelled peers = map (λ p. (format_uint p.id, p.uri)) peers

peers_of-spelled :
    (peers : List Peer) → All (λ p. p.id < 2 ^ 64) peers → peers_of (spelled peers) ≡ reply peers
unfolding peers_of spelled
peers_of-spelled [] h = refl
peers_of-spelled (p ∷ peers) h =
    rw (parse_uint64-format_uint p.id h.0, peers_of-spelled peers h.1) refl

by_id-IsOrder : IsOrder by_id
by_id-IsOrder = record { total = λ p q h. ground arith; trans = λ p q r h k. ground arith }

module _ (c : HttpClient) (r : NodeWire) (peers walked : List Peer) where
  -- The peers of the cluster, in ascending order of their ids, come back as they are, whichever order
  -- the answer names them in, if the ids are uint64 and no two peers share one.
  pub cluster_info-spelled :
      All (λ p. p.id < 2 ^ 64) walked
      → IsSorted by_id peers
      → IsStrict by_id walked
      → Permᴰ walked peers
      → do_json c http_get (codes "/cluster") none c.codec.node ≡ reply r
      → r.peers ≡ spelled walked
      → cluster_info c
        ≡ reply (record {
          enabled = text_eq r.status (codes "enabled");
          peer_id = r.peer_id;
          peers = peers;
          raft_leader = r.leader;
          pending_operations = r.pending_operations;
        })
  unfolding cluster_info
  cluster_info-spelled small sorted strict perm answered named =
      rw (answered, ap peers_of named ∙ peers_of-spelled walked small, ordered) refl
    where
      ordered : sort by_id walked ≡ peers
      ordered =
          sort-permuted by_id by_id-IsOrder perm strict
          ∙ sort-sorted by_id by_id-IsOrder peers sorted
