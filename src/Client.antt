-- ===== src/Client.antt =====
-- internal/qdrant/http.go, cluster.go, points.go and snapshot.go: the client of qdrant's REST interface.
-- A method makes one request and reads the answer. The server, the transport under it, `encoding/json`
-- on the way in and `url.PathEscape` are fields of `HttpClient`, since they are not of the repository;
-- a body on the way out is the value that the source builds. This file has what all methods share.
pub mod Collections
pub mod Observing
pub mod Changes
pub mod Points
pub mod Snapshots
pub mod Membership
pub mod Holders
pub mod Successes
mod Tests
use qdrant_operator.Common.{
  ℕ, leb, ltb, ◌==◌, Text, Bool, ◌&&◌, Option, none, some, List, ◌++◌, ◌≡◌, ap, if◌then◌else◌,
}
use qdrant_operator.Common.Dict.{Dict}
use qdrant_operator.Qdrant.{SnapshotInfo}

pub data Method : Type 0 where
  http_get http_put http_post http_delete : Method

-- What the source hands to `json.Marshal`. A raw value is spliced in as it stands.
mutual
  pub data Json : Type 0 where
    number : ℕ → Json
    text : Text → Json
    flag : Bool → Json
    raw : Text → Json
    array : Items → Json
    object : Entries → Json

  pub data Items : Type 0 where
    end : Items
    item : Json → Items → Items

  pub data Entries : Type 0 where
    close : Entries
    entry : Text → Json → Entries → Entries

pub record Request : Type 0 where
  pub method : Method
  pub url : Text
  pub body : Option Json

-- What a request comes to: no answer, or a status code with a body. A URL that does not parse counts as
-- no answer.
pub data Sent : Type 0 where
  unreachable : Sent
  response : ℕ → Text → Sent

-- The answers that the methods decode, as their local structs have them.
pub record NodeWire : Type 0 where
  pub status : Text
  pub peer_id : ℕ
  pub peers : Dict Text Text
  pub leader : ℕ
  pub pending_operations : ℕ

pub record LocalShard : Type 0 where
  pub shard_id : ℕ
  pub points_count : ℕ
  pub state : Text

pub record RemoteShard : Type 0 where
  pub shard_id : ℕ
  pub peer_id : ℕ
  pub state : Text

pub record ShardTransfer : Type 0 where
  pub shard_id : ℕ
  pub from : ℕ
  pub to : ℕ
  pub method : Text

pub record PlacementWire : Type 0 where
  pub peer_id : ℕ
  pub shard_count : ℕ
  pub local_shards : List LocalShard
  pub remote_shards : List RemoteShard
  pub shard_transfers : List ShardTransfer

pub record CollectionWire : Type 0 where
  pub points_count : ℕ
  pub size : ℕ
  pub distance : Text
  pub shard_number : ℕ
  pub replication_factor : ℕ

pub record PageWire : Type 0 where
  pub points : List Text
  pub next_page_offset : Text

-- A reading of a body by `encoding/json`, none where it fails: the result inside of its envelope, and
-- that result as the struct that a method wants. A map is listed in the order in which `range` meets it.
pub record Codec : Type 0 where
  pub envelope : Text → Option Text
  pub collection : Text → Option CollectionWire
  pub names : Text → Option (List Text)
  pub node : Text → Option NodeWire
  pub placement : Text → Option PlacementWire
  pub page : Text → Option PageWire
  pub aliases : Text → Option (List (Text × Text))
  pub snapshots : Text → Option (List SnapshotInfo)

pub record HttpClient : Type 0 where
  pub base_url : Text
  pub send : Request → Sent
  pub codec : Codec
  pub path_escape : Text → Text

-- The errors that the client returns.
pub data Failure : Type 0 where
  no_answer undecodable : Failure
  refused : Method → Text → ℕ → Failure
  bad_peer_key : Text → Failure

pub data Reply (A : Type 0) : Type 0 where
  reply : A → Reply A
  failure : Failure → Reply A

pub reply_injective : {A : Type 0} (a b : A) → reply a ≡ reply b → a ≡ b
reply_injective a b h = ap (λ x. elim x [ reply y ↦ y | failure e ↦ a ]) h

pub data AcceptPolicy : Type 0 where
  accept_ok_only accept_any_2xx : AcceptPolicy

unfoldable pub accepts : AcceptPolicy → ℕ → Bool
accepts accept_any_2xx code = leb 200 code && ltb code 300
accepts accept_ok_only code = code == 200

-- The request of a call, its path behind the base URL.
abbrev pub request_of : HttpClient → Method → Text → Option Json → Request
request_of c method path body = record { method = method; url = c.base_url ++ path; body = body }

-- A body that is read into `A`, its envelope first.
abbrev pub unwrapped : {A : Type 0} → (Text → Option A) → Option Text → Reply A
unwrapped decode none = failure undecodable
unwrapped decode (some inner) = elim (decode inner) [
  | none ↦ failure undecodable
  | some a ↦ reply a
]

-- `doJSONAccept` with a result to read.
abbrev pub read_sent :
    {A : Type 0} → HttpClient → Method → Text → (Text → Option A) → Sent → Reply A
read_sent c method path decode unreachable = failure no_answer
read_sent c method path decode (response code body) =
    if accepts accept_ok_only code
    then unwrapped decode (c.codec.envelope body)
    else failure (refused method path code)

unfoldable pub do_json :
    {A : Type 0} → HttpClient → Method → Text → Option Json → (Text → Option A) → Reply A
unfolding accepts
do_json c method path body decode =
    read_sent c method path decode (c.send (request_of c method path body))

-- An answer whose body is not looked at.
abbrev pub unless_refused : Method → Text → (ℕ → Bool) → Sent → Reply Unit
unless_refused method path fine unreachable = failure no_answer
unless_refused method path fine (response code body) =
    if fine code then reply tt else failure (refused method path code)

-- `doJSONAccept` without a result to read.
unfoldable pub do_change : HttpClient → Method → Text → Option Json → AcceptPolicy → Reply Unit
unfolding accepts
do_change c method path body policy =
    unless_refused method path (accepts policy) (c.send (request_of c method path body))
