-- ===== src/Fake/Peers.antt =====
-- `ClusterInfo` and `RemovePeer`.
use qdrant_operator.Common.{
  ℕ, ◌==◌, leb, Text, Bool, true, not, ◌&&◌, [], ◌∷◌, ◌++◌, any, filter, sort, if◌then◌else◌, codes,
}
use qdrant_operator.Common.Dict.{Dict}
use qdrant_operator.Qdrant.{Peer, ClusterInfo}
use qdrant_operator.Fake.{Fake}
use qdrant_operator.Fake.Answer.{Answer, done, failed, shard_remains, unless_injected, injected_on}

abbrev pub no_later : Peer → Peer → Bool
no_later p q = leb p.id q.id

unfoldable pub cluster_info : Fake → Answer ClusterInfo
cluster_info f = unless_injected (injected_on f (codes "ClusterInfo")) (
    done (record {
      enabled = true;
      peer_id = f.self_peer_id;
      peers = sort no_later f.peers_list;
      raft_leader = f.self_peer_id;
      pending_operations = 0;
    }))

-- Some placement names the peer.
unfoldable pub is_placed : ℕ → Dict Text (Dict ℕ ℕ) → Bool
is_placed pid pls = any (λ e. any (λ s. s.1 == pid) e.1) pls

-- Without force a peer that holds a shard stays.
unfoldable pub remove_peer : Fake → ℕ → Bool → Answer Fake
remove_peer f pid force = unless_injected (injected_on f (codes "RemovePeer")) (
    if not force && is_placed pid f.placement
    then failed (shard_remains pid)
    else done (record f {
      peers_list = filter (λ (p : Peer). not (p.id == pid)) f.peers_list;
      removed_peers = f.removed_peers ++ (pid ∷ []);
    }))
