-- ===== src/Client/Snapshots.antt =====
-- snapshot.go: snapshots of one peer are made, listed, deleted and recovered. A snapshot is only
-- started, so any 2xx code will do there.
use qdrant_operator.Common.{Text, none, some, List, [], ◌++◌, codes, is_empty, if◌then◌else◌}
use qdrant_operator.Qdrant.{SnapshotInfo}
use qdrant_operator.Client.{
  HttpClient, Reply, Json, text, object, Entries, close, entry, http_get, http_put, http_post,
  http_delete, accept_ok_only, accept_any_2xx, do_json, do_change,
}

abbrev pub snapshots_path : HttpClient → Text → Text → Text
snapshots_path c name rest =
    codes "/collections/" ++ (c.path_escape name ++ (codes "/snapshots" ++ rest))

unfoldable pub create_snapshot : HttpClient → Text → Reply Unit
unfolding do_change
create_snapshot c name =
    do_change c http_post (snapshots_path c name (codes "?wait=false")) none accept_any_2xx

unfoldable pub list_snapshots : HttpClient → Text → Reply (List SnapshotInfo)
unfolding do_json
list_snapshots c name = do_json c http_get (snapshots_path c name []) none c.codec.snapshots

unfoldable pub delete_snapshot : HttpClient → Text → Text → Reply Unit
unfolding do_change
delete_snapshot c name snapshot =
    do_change c http_delete (snapshots_path c name (codes "/" ++ c.path_escape snapshot)) none
      accept_ok_only

abbrev priority_entry : Text → Entries
priority_entry priority =
    if is_empty priority then close else entry (codes "priority") (text priority) close

abbrev pub recover_body : Text → Text → Json
recover_body location priority =
    object (entry (codes "location") (text location) (priority_entry priority))

unfoldable pub recover_snapshot : HttpClient → Text → Text → Text → Reply Unit
unfolding do_change
recover_snapshot c name location priority =
    do_change c http_put (snapshots_path c name (codes "/recover"))
      (some (recover_body location priority)) accept_ok_only
