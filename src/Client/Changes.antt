-- ===== src/Client/Changes.antt =====
-- The changes that cluster.go asks for: shard operations, the removal of a peer, aliases.
use qdrant_operator.Common.{
  ℕ, Text, Bool, none, some, List, [], ◌∷◌, ◌++◌, codes, format_uint, if◌then◌else◌,
}
use qdrant_operator.Qdrant.{AliasAction, create_alias, delete_alias}
use qdrant_operator.Client.{
  HttpClient, Reply, Json, number, text, array, object, Items, end, item, Entries, close, entry,
  http_post, http_delete, accept_ok_only, do_change,
}

abbrev pub transfer_method_stream_records : Text
transfer_method_stream_records = codes "stream_records"

-- The three bodies for `/collections/{name}/cluster`.
abbrev transfer_fields : ℕ → ℕ → ℕ → Entries
transfer_fields sid from to = entry (codes "shard_id") (number sid) (
    entry (codes "from_peer_id") (number from) (
      entry (codes "to_peer_id") (number to)
        (entry (codes "method") (text transfer_method_stream_records) close)))

abbrev pub move_body : ℕ → ℕ → ℕ → Json
move_body sid from to =
    object (entry (codes "move_shard") (object (transfer_fields sid from to)) close)

abbrev pub replicate_body : ℕ → ℕ → ℕ → Json
replicate_body sid from to =
    object (entry (codes "replicate_shard") (object (transfer_fields sid from to)) close)

abbrev pub drop_body : ℕ → ℕ → Json
drop_body sid pid = object (
    entry (codes "drop_replica")
      (object (entry (codes "shard_id") (number sid) (entry (codes "peer_id") (number pid) close)))
      close)

abbrev pub cluster_path : Text → Text
cluster_path name = codes "/collections/" ++ (name ++ codes "/cluster")

unfoldable pub move_shard : HttpClient → Text → ℕ → ℕ → ℕ → Reply Unit
unfolding do_change
move_shard c name sid from to =
    do_change c http_post (cluster_path name) (some (move_body sid from to)) accept_ok_only

unfoldable pub replicate_shard : HttpClient → Text → ℕ → ℕ → ℕ → Reply Unit
unfolding do_change
replicate_shard c name sid from to =
    do_change c http_post (cluster_path name) (some (replicate_body sid from to)) accept_ok_only

unfoldable pub drop_replica : HttpClient → Text → ℕ → ℕ → Reply Unit
unfolding do_change
drop_replica c name sid pid =
    do_change c http_post (cluster_path name) (some (drop_body sid pid)) accept_ok_only

abbrev pub peer_path : ℕ → Bool → Text
peer_path pid force =
    let path = codes "/cluster/peer/" ++ format_uint pid in
    if force then path ++ codes "?force=true" else path

unfoldable pub remove_peer : HttpClient → ℕ → Bool → Reply Unit
unfolding do_change format_uint
remove_peer c pid force = do_change c http_delete (peer_path pid force) none accept_ok_only

-- The field of an action that is set; the other one is left out.
unfoldable pub action_json : AliasAction → Json
action_json (create_alias alias name) = object (
    entry (codes "create_alias")
      (object (
        entry (codes "alias_name") (text alias)
          (entry (codes "collection_name") (text name) close)))
      close)
action_json (delete_alias alias) =
    object
      (entry (codes "delete_alias") (object (entry (codes "alias_name") (text alias) close)) close)

unfoldable pub actions_json : List AliasAction → Items
unfolding action_json
actions_json [] = end
actions_json (a ∷ actions) = item (action_json a) (actions_json actions)

abbrev pub actions_body : List AliasAction → Json
actions_body actions = object (entry (codes "actions") (array (actions_json actions)) close)

unfoldable pub update_aliases : HttpClient → List AliasAction → Reply Unit
unfolding do_change actions_json
update_aliases c actions =
    do_change c http_post (codes "/collections/aliases") (some (actions_body actions))
      accept_ok_only
