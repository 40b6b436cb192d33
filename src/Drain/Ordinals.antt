-- ===== src/Drain/Ordinals.antt =====
-- `peerOrdinal` and `peerOrdinals` of internal/controller/drain.go. `url.Parse(uri).Hostname()` is the
-- parameter `hostname`, none where the parse fails.
use qdrant_operator.Common.{
  ℕ, ◌==◌, Text, Option, none, some, List, [], ◌∷◌, not, filter, is_empty, if◌then◌else◌,
  parse_digits,
}
use qdrant_operator.Qdrant.{Peer}

-- `strings.Cut(s, ".")`, the part before.
unfoldable pub before_dot : Text → Text
before_dot [] = []
before_dot (c ∷ s) = if c == b'.' then [] else c ∷ before_dot s

-- What follows the last dash, none without one.
unfoldable pub after_last_dash : Text → Option Text
after_last_dash [] = none
after_last_dash (c ∷ s) = elim (after_last_dash s) [
  | some t ↦ some t
  | none ↦ if c == b'-' then some s else none
]

-- A sign may lead: `+7` is seven. A minus sign cannot stand here, as it would be the last dash.
unfoldable pub parse_ordinal : Text → Option ℕ
unfolding parse_digits
parse_ordinal [] = none
parse_ordinal (c ∷ s) =
    if c == b'+'
    then (if is_empty s then none else parse_digits 2147483648 0 s)
    else parse_digits 2147483648 0 (c ∷ s)

unfoldable pub ordinal_of_host : Option Text → Option ℕ
unfolding before_dot after_last_dash parse_ordinal
ordinal_of_host none = none
ordinal_of_host (some host) = elim (after_last_dash (before_dot host)) [
  | none ↦ none
  | some digits ↦ parse_ordinal digits
]

unfoldable pub peer_ordinal : (Text → Option Text) → Text → Option ℕ
unfolding ordinal_of_host
peer_ordinal hostname uri = ordinal_of_host (hostname uri)

-- The map from ordinal to peer, where a later peer takes an earlier one's place. One bad URI spoils
-- it whole.
unfoldable pub add_ordinals :
    (Text → Option Text) → List (ℕ × Peer) → List Peer → Option (List (ℕ × Peer))
unfolding peer_ordinal
add_ordinals hostname m [] = some m
add_ordinals hostname m (p ∷ peers) = elim (peer_ordinal hostname p.uri) [
  | none ↦ none
  | some ord ↦ add_ordinals hostname ((ord, p) ∷ filter (λ e. not (e.0 == ord)) m) peers
]

unfoldable pub peer_ordinals : (Text → Option Text) → List Peer → Option (List (ℕ × Peer))
unfolding add_ordinals
peer_ordinals hostname peers = add_ordinals hostname [] peers
