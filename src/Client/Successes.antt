-- ===== src/Client/Successes.antt =====
-- Which answers of qdrant the client takes for the success of a change.
use qdrant_operator.Common.{
  ℕ, Text, Bool, true, false, ◌||◌, ◌==◌, leb, ltb, ◌&&◌, none, some, List, ◌++◌, ◌≡◌, ◌↔◌, refl,
  subst, codes, inl, inr, Bool-cases, arith,
}
use qdrant_operator.Qdrant.{CollectionSpec, AliasAction}
use qdrant_operator.Client.{
  HttpClient, Method, Request, Sent, unreachable, response, Failure, no_answer, refused, Reply,
  reply, failure, object, array, entry, close, http_put, http_post, http_delete, accepts,
  request_of, unless_refused, do_change,
}
use qdrant_operator.Client.Collections.{
  collection_path, create_body, create_collection, delete_collection,
}
use qdrant_operator.Client.Changes.{
  cluster_path, move_body, replicate_body, drop_body, peer_path, actions_body, move_shard,
  replicate_shard, drop_replica, remove_peer, update_aliases,
}
use qdrant_operator.Client.Points.{raw_items, upsert_points}
use qdrant_operator.Client.Snapshots.{
  snapshots_path, recover_body, create_snapshot, delete_snapshot, recover_snapshot,
}

-- The changes of a cluster that the client can ask for.
pub data Change : Type 0 where
  creation : Text → CollectionSpec → Change
  deletion : Text → Change
  move replication : Text → ℕ → ℕ → ℕ → Change
  drop : Text → ℕ → ℕ → Change
  removal : ℕ → Bool → Change
  aliasing : List AliasAction → Change
  upsert : Text → List Text → Change
  snapshot : Text → Change
  snapshot_deletion : Text → Text → Change
  recovery : Text → Text → Text → Change

unfoldable pub run : HttpClient → Change → Reply Unit
run c (creation name spec) = create_collection c name spec
run c (deletion name) = delete_collection c name
run c (move name sid from to) = move_shard c name sid from to
run c (replication name sid from to) = replicate_shard c name sid from to
run c (drop name sid pid) = drop_replica c name sid pid
run c (removal pid force) = remove_peer c pid force
run c (aliasing actions) = update_aliases c actions
run c (upsert name points) = upsert_points c name points
run c (snapshot name) = create_snapshot c name
run c (snapshot_deletion name s) = delete_snapshot c name s
run c (recovery name location priority) = recover_snapshot c name location priority

-- The one request of a change.
unfoldable pub asked : HttpClient → Change → Request
unfolding raw_items
asked c (creation name spec) =
    request_of c http_put (collection_path name) (some (create_body spec))
asked c (deletion name) = request_of c http_delete (collection_path name) none
asked c (move name sid from to) =
    request_of c http_post (cluster_path name) (some (move_body sid from to))
asked c (replication name sid from to) =
    request_of c http_post (cluster_path name) (some (replicate_body sid from to))
asked c (drop name sid pid) = request_of c http_post (cluster_path name) (some (drop_body sid pid))
asked c (removal pid force) = request_of c http_delete (peer_path pid force) none
asked c (aliasing actions) =
    request_of c http_post (codes "/collections/aliases") (some (actions_body actions))
asked c (upsert name points) =
    request_of c http_put (codes "/collections/" ++ (name ++ codes "/points?wait=true"))
      (some (object (entry (codes "points") (array (raw_items points)) close)))
asked c (snapshot name) = request_of c http_post (snapshots_path c name (codes "?wait=false")) none
asked c (snapshot_deletion name s) =
    request_of c http_delete (snapshots_path c name (codes "/" ++ c.path_escape s)) none
asked c (recovery name location priority) =
    request_of c http_put (snapshots_path c name (codes "/recover"))
      (some (recover_body location priority))

-- The codes that count: 200, for a deletion also 404, for the start of a snapshot any 2xx.
unfoldable pub is_success : Change → ℕ → Bool
is_success (deletion name) code = code == 200 || code == 404
is_success (snapshot name) code = leb 200 code && ltb code 300
is_success _ code = code == 200

-- An answer whose code is a success.
unfoldable pub is_taken : (ℕ → Bool) → Sent → Bool
is_taken fine unreachable = false
is_taken fine (response code body) = fine code

refused_reply : (e : Failure) → ¬ ◌≡◌ {A = Reply Unit} (failure e) (reply tt)
refused_reply e h = subst (λ x. elim x [ reply y ↦ ⊥ | failure d ↦ Unit ]) h tt

taken_lem :
    (method : Method) (path : Text) (fine : ℕ → Bool) (s : Sent)
    → (unless_refused method path fine s ≡ reply tt) ↔ (is_taken fine s ≡ true)
unfolding is_taken
taken_lem method path fine unreachable =
    ((λ h. absurd (refused_reply no_answer h)), (λ h. absurd (ground arith)))
taken_lem method path fine (response code body) = elim (Bool-cases (fine code)) [
  | inl e ↦ rw e ((λ h. refl), (λ h. refl))
  | inr e ↦
      rw e
        ((λ h. absurd (refused_reply (refused method path code) h)), (λ h. absurd (ground arith)))
]

module _ (c : HttpClient) where
  -- A change succeeds exactly if qdrant answers its request with 200, or with 404 where a collection is
  -- deleted, or with any 2xx where a snapshot is started.
  pub run-is_success :
      (change : Change)
      → (run c change ≡ reply tt) ↔ (is_taken (is_success change) (c.send (asked c change)) ≡ true)
  unfolding accepts run asked is_success do_change create_collection delete_collection move_shard
      replicate_shard drop_replica remove_peer update_aliases upsert_points create_snapshot
      delete_snapshot recover_snapshot
  run-is_success (creation name spec) = taken_lem _ _ _ _
  run-is_success (deletion name) = taken_lem _ _ _ _
  run-is_success (move name sid from to) = taken_lem _ _ _ _
  run-is_success (replication name sid from to) = taken_lem _ _ _ _
  run-is_success (drop name sid pid) = taken_lem _ _ _ _
  run-is_success (removal pid force) = taken_lem _ _ _ _
  run-is_success (aliasing actions) = taken_lem _ _ _ _
  run-is_success (upsert name points) = taken_lem _ _ _ _
  run-is_success (snapshot name) = taken_lem _ _ _ _
  run-is_success (snapshot_deletion name s) = taken_lem _ _ _ _
  run-is_success (recovery name location priority) = taken_lem _ _ _ _
