-- ===== src/Client/Collections.antt =====
-- http.go: a collection is read, created and deleted. A missing one is an answer, not an error.
use qdrant_operator.Common.{
  ◌==◌, Text, true, false, ◌||◌, none, some, [], ◌++◌, codes, if◌then◌else◌,
}
use qdrant_operator.Qdrant.{CollectionInfo, CollectionSpec}
use qdrant_operator.Client.{
  HttpClient, Sent, unreachable, response, Reply, reply, failure, no_answer, undecodable, refused,
  CollectionWire, Json, number, text, object, close, entry, http_get, http_put, http_delete,
  request_of, unless_refused,
}

abbrev pub collection_path : Text → Text
collection_path name = codes "/collections/" ++ name

abbrev pub no_collection : CollectionInfo
no_collection = record {
  found = false;
  points_count = 0;
  vector_size = 0;
  distance = [];
  shard_number = 0;
  replication_factor = 0;
}

abbrev found_collection : CollectionWire → CollectionInfo
found_collection r = record {
  found = true;
  points_count = r.points_count;
  vector_size = r.size;
  distance = r.distance;
  shard_number = r.shard_number;
  replication_factor = r.replication_factor;
}

-- The whole body is decoded here, without the step through an envelope.
abbrev pub collection_sent : HttpClient → Text → Sent → Reply CollectionInfo
collection_sent c name unreachable = failure no_answer
collection_sent c name (response code body) =
    if code == 404
    then reply no_collection
    else if code == 200
    then elim (c.codec.collection body) [
      | none ↦ failure undecodable
      | some r ↦ reply (found_collection r)
    ]
    else failure (refused http_get (collection_path name) code)

unfoldable pub get_collection : HttpClient → Text → Reply CollectionInfo
get_collection c name =
    collection_sent c name (c.send (request_of c http_get (collection_path name) none))

abbrev pub create_body : CollectionSpec → Json
create_body spec = object (
    entry (codes "vectors")
      (object (
        entry (codes "size") (number spec.vector_size)
          (entry (codes "distance") (text spec.distance) close)))
      (entry (codes "shard_number") (number spec.shard_number)
        (entry (codes "replication_factor") (number spec.replication_factor) close)))

unfoldable pub create_collection : HttpClient → Text → CollectionSpec → Reply Unit
create_collection c name spec =
    unless_refused http_put (collection_path name) (λ code. code == 200)
      (c.send (request_of c http_put (collection_path name) (some (create_body spec))))

unfoldable pub delete_collection : HttpClient → Text → Reply Unit
delete_collection c name =
    unless_refused http_delete (collection_path name) (λ code. code == 200 || code == 404)
      (c.send (request_of c http_delete (collection_path name) none))
