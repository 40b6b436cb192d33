-- ===== src/Common/Bytes.antt =====
-- Go strings as lists of bytes: literals, equality, order and decimal numbers.
use Prim.Native.Nat.{ℕ, zero, suc, ◌+◌, ◌-◌, ◌*◌, ◌/◌, ◌%◌, ◌^◌, ◌≤◌, ◌<◌, compare, Ordering}
use Prim.Native.Char.{code}
use Prim.Native.String.{String}
use mathlib.Core.Path.{◌≡◌, refl}
use mathlib.Core.Bool.{Bool, true, false, ◌&&◌}
use mathlib.Core.List.{List, [], ◌∷◌}
use mathlib.Core.Option.{Option, none, some}
use native.Mathlib.Omega.{arith}
use native.Mathlib.Nat.{pow-succ'}
use qdrant_operator.Common.Lists.{is_empty}
use qdrant_operator.Common.Tests.{ltb, leb, ◌==◌, if◌then◌else◌}

abbrev pub Text : Type 0
Text = List ℕ

-- The bytes of an ASCII literal.
abbrev pub codes : String → Text
codes String.[] = []
codes (String.◌∷◌ c s) = code c ∷ codes s

unfoldable pub text_eq : Text → Text → Bool
text_eq [] [] = true
text_eq (a ∷ s) (b ∷ t) = a == b && text_eq s t
text_eq _ _ = false

-- `strings.Compare`: by bytes, a prefix first.
unfoldable pub text_compare : Text → Text → Ordering
text_compare [] [] = Ordering.eq
text_compare [] (b ∷ t) = Ordering.lt
text_compare (a ∷ s) [] = Ordering.gt
text_compare (a ∷ s) (b ∷ t) = elim (compare a b) [ Ordering.eq ↦ text_compare s t | o ↦ o ]

abbrev pub text_leb : Text → Text → Bool
text_leb s t = elim (text_compare s t) [ Ordering.gt ↦ false | _ ↦ true ]

abbrev pub text_ltb : Text → Text → Bool
text_ltb s t = elim (text_compare s t) [ Ordering.lt ↦ true | _ ↦ false ]

pub text_eq_refl : (s : Text) → text_eq s s ≡ true
unfolding text_eq
text_eq_refl [] = refl
text_eq_refl (a ∷ s) = ground (arith, text_eq_refl s)

pub text_eq_sound : (s t : Text) → text_eq s t ≡ true → s ≡ t
unfolding text_eq
text_eq_sound [] [] h = refl
text_eq_sound [] (b ∷ t) h = ground arith
text_eq_sound (a ∷ s) [] h = ground arith
text_eq_sound (a ∷ s) (b ∷ t) h = ground (arith, text_eq_sound s t)

-- `strconv.FormatUint(n, 10)`, with a round for each digit: twenty are enough below 2 ^ 64.
unfoldable pub format_digits : ℕ → ℕ → Text → Text
format_digits zero n acc = acc
format_digits (suc f) n acc =
    let rest = format_digits f (n / 10) ((b'0' + n % 10) ∷ acc) in
    if ltb n 10 then (b'0' + n) ∷ acc else rest

unfoldable pub format_uint : ℕ → Text
format_uint n = format_digits 20 n []

abbrev max_uint64 : ℕ
max_uint64 = 18446744073709551615

is_digit : ℕ → Bool
is_digit c = leb b'0' c && leb c b'9'

-- The value that `strconv.ParseUint(s, 10, 64)` returns, its error set aside: 0 for a text that is
-- no number, the largest value for one out of range.
unfoldable pub parse_from : ℕ → Text → ℕ
unfolding is_digit
parse_from n [] = n
parse_from n (c ∷ cs) =
    let m = n * 10 + (c - b'0') in
    let rest = parse_from m cs in
    if is_digit c then (if ltb max_uint64 m then max_uint64 else rest) else 0

unfoldable pub parse_uint : Text → ℕ
parse_uint [] = 0
parse_uint (c ∷ cs) = parse_from 0 (c ∷ cs)

parse_from-format :
    (f n : ℕ) (acc : Text)
    → n < 10 ^ f
    → n ≤ max_uint64
    → parse_from 0 (format_digits f n acc) ≡ parse_from n acc
unfolding parse_from format_digits
parse_from-format zero n acc h k = rw (small n h) refl
  where
    small : (m : ℕ) → m < 10 ^ 0 → m ≡ 0
    small m l = omega arith
parse_from-format (suc f) n acc h k = ground (
  arith,
  parse_from-format f (n / 10) ((b'0' + n % 10) ∷ acc) (shorter (10 ^ f) (rw (pow-succ' 10 f) at h))
      (omega arith),
)
  where
    shorter : (p : ℕ) → n < 10 * p → n / 10 < p
    shorter p l = omega arith

parse_uint_lem : (s : Text) → parse_uint s ≡ parse_from 0 s
unfolding parse_uint parse_from
parse_uint_lem [] = refl
parse_uint_lem (c ∷ cs) = refl

-- A peer's number survives being printed and read again.
pub parse_uint-format_uint : (n : ℕ) → n < 2 ^ 64 → parse_uint (format_uint n) ≡ n
unfolding format_uint parse_from
parse_uint-format_uint n h =
    rw (parse_uint_lem, parse_from-format 20 n [] (omega arith) (omega arith)) refl

-- A number is never printed as the empty text.
format_digits_some :
    (f n : ℕ) (acc : Text) → is_empty acc ≡ false → is_empty (format_digits f n acc) ≡ false
unfolding format_digits
format_digits_some zero n acc h = h
format_digits_some (suc f) n acc h =
    ground (arith, format_digits_some f (n / 10) ((b'0' + n % 10) ∷ acc) refl)

format_digits_start : (f n : ℕ) → is_empty (format_digits (suc f) n []) ≡ false
unfolding format_digits
format_digits_start f n = ground (arith, format_digits_some f (n / 10) ((b'0' + n % 10) ∷ []) refl)

pub is_empty-format_uint : (n : ℕ) → is_empty (format_uint n) ≡ false
unfolding format_uint
is_empty-format_uint n = format_digits_start 19 n

-- The number that a text of digits writes, if every prefix stays below the limit.
unfoldable pub parse_digits : ℕ → ℕ → Text → Option ℕ
unfolding is_digit
parse_digits limit n [] = some n
parse_digits limit n (c ∷ s) =
    let m = n * 10 + (c - b'0') in
    let rest = parse_digits limit m s in if is_digit c && ltb m limit then rest else none

parse_digits-format :
    (limit f n : ℕ) (acc : Text)
    → n < 10 ^ f
    → n < limit
    → parse_digits limit 0 (format_digits f n acc) ≡ parse_digits limit n acc
unfolding parse_digits format_digits
parse_digits-format limit zero n acc h k = rw (small n h) refl
  where
    small : (m : ℕ) → m < 10 ^ 0 → m ≡ 0
    small m l = omega arith
parse_digits-format limit (suc f) n acc h k = ground (
  arith,
  parse_digits-format limit f (n / 10) ((b'0' + n % 10) ∷ acc)
      (shorter (10 ^ f) (rw (pow-succ' 10 f) at h)) (omega arith),
)
  where
    shorter : (p : ℕ) → n < 10 * p → n / 10 < p
    shorter p l = omega arith

-- Printing and reading back, below a limit that twenty digits reach.
pub parse_digits-format_uint :
    (limit n : ℕ) → n < limit → limit ≤ 10 ^ 20 → parse_digits limit 0 (format_uint n) ≡ some n
unfolding format_uint parse_digits
parse_digits-format_uint limit n h k = parse_digits-format limit 20 n [] (omega arith) h
