-- ===== src/Fake.antt =====
-- internal/qdrant/fake.go: the client of qdrant in memory that the tests run the controllers on. The
-- mutex makes every method one step on this state; the children hold the methods.
pub mod Answer
pub mod Seed
pub mod Points
pub mod Aliases
pub mod Collections
pub mod Shards
pub mod Peers
pub mod Snapshots
use qdrant_operator.Common.{ℕ, Text, Bool, List, [], ◌∷◌, codes}
use qdrant_operator.Common.Dict.{Dict}
use qdrant_operator.Qdrant.{
  Peer, ShardState, TransferInfo, AliasAction, CollectionInfo, SnapshotInfo,
}

pub record Fake : Type 0 where
  pub collections : Dict Text CollectionInfo
  pub err_on : Dict Text Text
  pub created : List Text
  pub deleted : List Text
  pub self_peer_id : ℕ
  pub peers_list : List Peer
  pub placement : Dict Text (Dict ℕ ℕ)
  pub in_flight : Dict Text (List TransferInfo)
  pub moves : List Text
  pub removed_peers : List ℕ
  pub aliases : Dict Text Text
  pub alias_log : List (List AliasAction)
  pub points : Dict Text (List Text)
  pub extra_replicas : Dict Text (Dict ℕ (List ℕ))
  pub shard_points : Dict Text (Dict ℕ ℕ)
  pub replicated : List Text
  pub shard_states : Dict Text (Dict (ℕ × ℕ) ShardState)
  pub dead_replicas : Dict Text (Dict ℕ (List ℕ))
  pub snapshots : Dict Text (List SnapshotInfo)
  pub snapshot_seq : ℕ
  pub snapshot_now : Text
  pub recovered : List Text

abbrev pub new_fake : Fake
new_fake = record {
  collections = [];
  err_on = [];
  created = [];
  deleted = [];
  self_peer_id = 1;
  peers_list = record { id = 1; uri = codes "http://fake-0.fake-headless:6335/" } ∷ [];
  placement = [];
  in_flight = [];
  moves = [];
  removed_peers = [];
  aliases = [];
  alias_log = [];
  points = [];
  extra_replicas = [];
  shard_points = [];
  replicated = [];
  shard_states = [];
  dead_replicas = [];
  snapshots = [];
  snapshot_seq = 0;
  snapshot_now = [];
  recovered = [];
}
