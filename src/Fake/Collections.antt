-- ===== src/Fake/Collections.antt =====
-- `GetCollection`, `CreateCollection`, `DeleteCollection` and `ListCollections`.
use qdrant_operator.Common.{
  ℕ, zero, suc, ◌+◌, ◌%◌, Text, Bool, true, Option, none, some, List, [], ◌∷◌, ◌++◌, length, filter,
  map, sort, text_leb, if◌then◌else◌, codes,
}
use qdrant_operator.Common.Dict
use qdrant_operator.Common.Dict.{Dict, text_key, number_key}
use qdrant_operator.Qdrant.{Peer, CollectionInfo, CollectionSpec}
use qdrant_operator.Fake.{Fake}
use qdrant_operator.Fake.Answer.{
  Answer, done, failed, panic, collection_exists, unless_injected, injected_on,
}
use qdrant_operator.Fake.Seed.{info_of}

unfoldable pub get_collection : Fake → Text → Answer CollectionInfo
get_collection f name =
    unless_injected (injected_on f (codes "GetCollection")) (done (info_of f name))

abbrev pub info_from : CollectionSpec → CollectionInfo
info_from spec = record {
  found = true;
  points_count = 0;
  vector_size = spec.vector_size;
  distance = spec.distance;
  shard_number = spec.shard_number;
  replication_factor = spec.replication_factor;
}

unfoldable pub peer_at : ℕ → List Peer → ℕ
peer_at n [] = 0
peer_at zero (p ∷ peers) = p.id
peer_at (suc n) (p ∷ peers) = peer_at n peers

-- The shards from i on, each on the peer whose turn it is.
unfoldable pub round_robin : List Peer → ℕ → ℕ → Dict ℕ ℕ
round_robin peers zero i = []
round_robin peers (suc n) i = (i, peer_at (i % length peers) peers) ∷ round_robin peers n (i + 1)

-- With shards and no peers the turn is a division by zero.
unfoldable pub spread : List Peer → ℕ → Option (Dict ℕ ℕ)
spread peers zero = some []
spread [] (suc n) = none
spread (p ∷ peers) (suc n) = some (round_robin (p ∷ peers) (suc n) 0)

abbrev create_with : Fake → Text → CollectionSpec → Option (Dict ℕ ℕ) → Answer Fake
create_with f name spec none = panic
create_with f name spec (some pl) = done (record f {
  collections = Dict.put name (info_from spec) f.collections;
  placement = Dict.put name pl f.placement;
  created = f.created ++ (name ∷ []);
})

unfoldable pub create_collection : Fake → Text → CollectionSpec → Answer Fake
create_collection f name spec =
    let info = info_of f name in
    unless_injected (injected_on f (codes "CreateCollection")) (
      if info.found
      then failed (collection_exists name)
      else create_with f name spec (spread f.peers_list spec.shard_number))

unfoldable pub delete_collection : Fake → Text → Answer Fake
delete_collection f name = unless_injected (injected_on f (codes "DeleteCollection")) (
    done (record f {
      collections = Dict.remove name f.collections;
      placement = Dict.remove name f.placement;
      deleted = f.deleted ++ (name ∷ []);
    }))

abbrev is_found : Text × CollectionInfo → Bool
is_found e = let info = e.1 in info.found

unfoldable pub list_collections : Fake → Answer (List Text)
list_collections f =
    unless_injected (injected_on f (codes "ListCollections"))
      (done (sort text_leb (map (λ e. e.0) (filter is_found f.collections))))
