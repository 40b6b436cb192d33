-- ===== src/Client/Points.antt =====
-- points.go: points pass through as they are. An empty offset stands for the source's nil, in and out.
use qdrant_operator.Common.{
  ℕ, Text, true, none, some, List, [], ◌∷◌, ◌++◌, codes, text_eq, is_empty, if◌then◌else◌,
}
use qdrant_operator.Common.Dict
use qdrant_operator.Common.Dict.{Dict, text_key}
use qdrant_operator.Client.{
  HttpClient, Reply, reply, failure, PageWire, Json, number, flag, raw, array, object, Items, end,
  item, Entries, close, entry, http_get, http_put, http_post, accept_ok_only, do_json, do_change,
}

abbrev offset_entry : Text → Entries
offset_entry offset = if is_empty offset then close else entry (codes "offset") (raw offset) close

abbrev pub scroll_body : Text → ℕ → Json
scroll_body offset limit = object (
    entry (codes "limit") (number limit) (
      entry (codes "with_payload") (flag true)
        (entry (codes "with_vector") (flag true) (offset_entry offset))))

-- The last page is told by a null.
abbrev pub page_of : Reply PageWire → Reply (List Text × Text)
page_of (failure e) = failure e
page_of (reply r) =
    reply (r.points, (if text_eq r.next_page_offset (codes "null") then [] else r.next_page_offset))

unfoldable pub scroll_points : HttpClient → Text → Text → ℕ → Reply (List Text × Text)
unfolding do_json
scroll_points c name offset limit = page_of (
    do_json c http_post (codes "/collections/" ++ (name ++ codes "/points/scroll"))
      (some (scroll_body offset limit)) c.codec.page)

unfoldable pub raw_items : List Text → Items
raw_items [] = end
raw_items (p ∷ points) = item (raw p) (raw_items points)

unfoldable pub upsert_points : HttpClient → Text → List Text → Reply Unit
unfolding do_change raw_items
upsert_points c name points =
    do_change c http_put (codes "/collections/" ++ (name ++ codes "/points?wait=true"))
      (some (object (entry (codes "points") (array (raw_items points)) close))) accept_ok_only

-- A later alias of the same name takes an earlier one's place.
unfoldable pub alias_map : Dict Text Text → List (Text × Text) → Dict Text Text
alias_map m [] = m
alias_map m ((alias, name) ∷ aliases) = alias_map (Dict.put alias name m) aliases

abbrev aliases_of : Reply (List (Text × Text)) → Reply (Dict Text Text)
aliases_of (failure e) = failure e
aliases_of (reply aliases) = reply (alias_map [] aliases)

unfoldable pub list_aliases : HttpClient → Reply (Dict Text Text)
unfolding do_json alias_map
list_aliases c = aliases_of (do_json c http_get (codes "/aliases") none c.codec.aliases)
