-- ===== src/Drain/Announced.antt =====
-- The ordinal that the drain reads from a peer's URI is the one that the start script of the pod put
-- there (initScript of internal/resources/configmap.go, peerOrdinal of internal/controller/drain.go).
use qdrant_operator.Common.{
  ℕ, zero, suc, ◌+◌, ◌/◌, ◌%◌, ◌<◌, ◌==◌, Text, Bool, false, Option, none, some, [], ◌∷◌, ◌++◌, ◌≡◌,
  refl, sym, ap, ◌∙◌, arith, any, is_empty, is_empty-format_uint, parse_digits,
  parse_digits-format_uint, codes, format_uint, format_digits,
}
use mathlib.Core.List.{append_assoc}
use qdrant_operator.Api.Cluster.{QdrantCluster}
use qdrant_operator.Resources.{headless_name, p2p_port}
use qdrant_operator.Drain.Ordinals.{
  before_dot, after_last_dash, parse_ordinal, ordinal_of_host, peer_ordinal,
}

-- The host name of the pod with an ordinal, as its start script writes it.
unfoldable pub announced_host : QdrantCluster → ℕ → Text
announced_host qc ord =
    qc.name ++ (codes "-" ++ (format_uint ord ++ (codes "." ++ headless_name qc)))

-- What the pod announces to its peers.
unfoldable pub announced_uri : QdrantCluster → ℕ → Text
unfolding announced_host
announced_uri qc ord =
    codes "http://" ++ (announced_host qc ord ++ (codes ":" ++ format_uint p2p_port))

abbrev pub has_code : ℕ → Text → Bool
has_code c s = any (λ x. x == c) s

before_dot-append : (s t : Text) → has_code b'.' s ≡ false → before_dot (s ++ (b'.' ∷ t)) ≡ s
unfolding before_dot
before_dot-append [] t h = refl
before_dot-append (x ∷ s) t h = ground (arith, before_dot-append s t)

after_last_dash-none : (s : Text) → has_code b'-' s ≡ false → after_last_dash s ≡ none
unfolding after_last_dash
after_last_dash-none [] h = refl
after_last_dash-none (x ∷ s) h = ground (arith, after_last_dash-none s)

after_last_dash-append :
    (s t : Text) → has_code b'-' t ≡ false → after_last_dash (s ++ (b'-' ∷ t)) ≡ some t
unfolding after_last_dash
after_last_dash-append [] t h = ground (arith, after_last_dash-none t h)
after_last_dash-append (x ∷ s) t h = ground (arith, after_last_dash-append s t h)

-- Digits hold neither a dot nor a dash nor a plus.
format_digits-free :
    (c f n : ℕ) (acc : Text)
    → c < b'0'
    → has_code c acc ≡ false
    → has_code c (format_digits f n acc) ≡ false
unfolding format_digits
format_digits-free c zero n acc h k = k
format_digits-free c (suc f) n acc h k =
    ground (arith, format_digits-free c f (n / 10) ((b'0' + n % 10) ∷ acc))

parse_ordinal_digits :
    (s : Text)
    → is_empty s ≡ false
    → has_code b'+' s ≡ false
    → parse_ordinal s ≡ parse_digits 2147483648 0 s
unfolding parse_ordinal
parse_ordinal_digits [] e h = ground arith
parse_ordinal_digits (c ∷ s) e h = ground arith

parse_ordinal-format_uint : (n : ℕ) → n < 2147483648 → parse_ordinal (format_uint n) ≡ some n
unfolding format_uint parse_digits
parse_ordinal-format_uint n h =
    parse_ordinal_digits (format_uint n) (is_empty-format_uint n)
      (format_digits-free b'+' 20 n [] (omega arith) refl)
    ∙ parse_digits-format_uint 2147483648 n h (omega arith)

no_dot-host :
    (name : Text) (ord : ℕ)
    → has_code b'.' name ≡ false
    → has_code b'.' (name ++ (b'-' ∷ format_uint ord)) ≡ false
unfolding format_uint
no_dot-host [] ord h = format_digits-free b'.' 20 ord [] (omega arith) refl
no_dot-host (c ∷ name) ord h = ground (arith, no_dot-host name ord)

dash_read :
    (qc : QdrantCluster) (ord : ℕ)
    → has_code b'.' qc.name ≡ false
    → after_last_dash (before_dot (announced_host qc ord)) ≡ some (format_uint ord)
unfolding announced_host
dash_read qc ord plain =
    ap (λ h. after_last_dash (before_dot h))
      (sym (append_assoc qc.name (b'-' ∷ format_uint ord) (b'.' ∷ headless_name qc)))
    ∙ ap after_last_dash (before_dot-append _ (headless_name qc) (no_dot-host qc.name ord plain))
    ∙ after_last_dash-append qc.name (format_uint ord) (dashless ord)
  where
    dashless : (n : ℕ) → has_code b'-' (format_uint n) ≡ false
    dashless n = unfold format_uint in format_digits-free b'-' 20 n [] (omega arith) refl

-- The ordinal that is read from the URI which a pod announces is that pod's own, for every name of a
-- cluster without a dot and every ordinal of an int32. `hostname` is the host of a parsed URI, and
-- reads the announced one as it was written.
pub peer_ordinal-announced_uri :
    (hostname : Text → Option Text) (qc : QdrantCluster) (ord : ℕ)
    → hostname (announced_uri qc ord) ≡ some (announced_host qc ord)
    → has_code b'.' qc.name ≡ false
    → ord < 2147483648
    → peer_ordinal hostname (announced_uri qc ord) ≡ some ord
unfolding peer_ordinal ordinal_of_host
peer_ordinal-announced_uri hostname qc ord read plain small =
    ap ordinal_of_host read
    ∙ ap (λ o. elim o as (λ x. Option ℕ) [ none ↦ none | some digits ↦ parse_ordinal digits ])
        (dash_read qc ord plain)
    ∙ parse_ordinal-format_uint ord small
