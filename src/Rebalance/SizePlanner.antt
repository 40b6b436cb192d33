-- ===== src/Rebalance/SizePlanner.antt =====
-- `planSizeRebalance` of internal/controller/rebalance.go: one move that narrows the gap between the
-- peers with most and fewest points. uint64 arithmetic wraps; `float64` rounds to 53 bits.
use qdrant_operator.Common.{
  ℕ, zero, suc, ◌+◌, ◌-◌, ◌*◌, ◌/◌, ◌%◌, ◌^◌, ◌==◌, ltb, leb, max, min, Text, Bool, false, not,
  ◌&&◌, ◌||◌, Option, none, some, List, [], ◌∷◌, map, length, if◌then◌else◌, text_eq, text_ltb,
}
use qdrant_operator.Qdrant.{Peer, ShardInfo, CollectionClusterInfo}
use qdrant_operator.Rebalance.Observation.{
  Observation, find_text, size_of, sorted_names, holds, is_member,
}
use qdrant_operator.Rebalance.Moves.{PlannedMove}

abbrev pub add64 : ℕ → ℕ → ℕ
add64 a b = (a + b) % 18446744073709551616

abbrev pub sub64 : ℕ → ℕ → ℕ
sub64 a b = (a + 18446744073709551616 - b) % 18446744073709551616

abbrev pub max_uint64 : ℕ
max_uint64 = 18446744073709551615

abbrev pub size_min_delta : ℕ
size_min_delta = 10000

-- Round half to even at a unit of `u`.
round_even : ℕ → ℕ → ℕ
round_even n u =
    let q = n / u in
    let r = n % u in
    if ltb (2 * r) u then q * u else if ltb u (2 * r) then (q + 1) * u else (q + q % 2) * u

-- `float64(n)` of a uint64, with its value as a number: a unit of 2 ^ k once n has 53 + k bits.
float64_from : ℕ → ℕ → ℕ → ℕ
float64_from zero k n = n
float64_from (suc f) k n =
    let rest = float64_from f (suc k) n in
    if ltb n (2 ^ (53 + k)) then round_even n (2 ^ k) else rest

unfoldable pub float64 : ℕ → ℕ
unfolding float64_from round_even
float64 n = float64_from 12 0 n

-- The points of one collection on a peer, added up in uint64.
unfoldable pub points_in : Observation → ℕ → Text → List ShardInfo → ℕ → ℕ
points_in obs pid coll [] acc = acc
points_in obs pid coll (s ∷ shards) acc = points_in obs pid coll shards (
    if is_member obs.peers s.peer_id && s.peer_id == pid
    then add64 acc (size_of obs coll s.shard_id)
    else acc)

unfoldable pub points_of : Observation → ℕ → List (Text × CollectionClusterInfo) → ℕ → ℕ
points_of obs pid [] acc = acc
points_of obs pid ((coll, cc) ∷ m) acc = points_of obs pid m (points_in obs pid coll cc.shards acc)

-- `total`: the points of each peer over all collections.
unfoldable pub totals : Observation → List (ℕ × ℕ)
unfolding points_of points_in is_member size_of
totals obs = map (λ (p : Peer). (p.id, points_of obs p.id obs.collections 0)) obs.peers

unfoldable pub spread_from : ℕ → ℕ → List (ℕ × ℕ) → ℕ
spread_from mx mn [] = sub64 mx mn
spread_from mx mn ((pid, v) ∷ t) = spread_from (max mx v) (min mn v) t

unfoldable pub spread : List (ℕ × ℕ) → ℕ
unfolding spread_from
spread t = spread_from 0 max_uint64 t

pub record Extremes : Type 0 where
  pub mx : ℕ
  pub donor : ℕ
  pub mn : ℕ
  pub recip : ℕ

-- The fullest and the emptiest peer, the first of equals.
unfoldable pub extremes : Extremes → List (ℕ × ℕ) → Extremes
extremes e [] = e
extremes e ((pid, v) ∷ t) =
    extremes
      (record {
        mx = if ltb e.mx v then v else e.mx;
        donor = if ltb e.mx v then pid else e.donor;
        mn = if ltb v e.mn then v else e.mn;
        recip = if ltb v e.mn then pid else e.recip;
      })
      t

-- `t2`: the totals after a shard of that size has gone from donor to recipient.
unfoldable pub shifted : ℕ → ℕ → ℕ → List (ℕ × ℕ) → List (ℕ × ℕ)
shifted donor recip size [] = []
shifted donor recip size ((pid, v) ∷ t) =
    (pid, (if pid == donor then sub64 v size else if pid == recip then add64 v size else v))
    ∷ shifted donor recip size t

pub record Candidate : Type 0 where
  pub coll : Text
  pub shard_id : ℕ
  pub new_spread : ℕ

unfoldable pub comes_first : Candidate → Candidate → Bool
comes_first c b =
    ltb c.new_spread b.new_spread
    || (c.new_spread == b.new_spread
        && (text_ltb c.coll b.coll || (text_eq c.coll b.coll && ltb c.shard_id b.shard_id)))

unfoldable pub better : Option Candidate → Candidate → Option Candidate
unfolding comes_first
better none c = some c
better (some b) c = if comes_first c b then some c else some b

-- A shard is weighed if the donor holds it, the recipient does not, and the gap gets smaller.
unfoldable pub weigh :
    Observation
    → List (ℕ × ℕ)
    → Extremes
    → Text
    → List ShardInfo
    → Option Candidate
    → ShardInfo
    → Option Candidate
unfolding holds size_of shifted spread better
weigh obs t e coll shards best s =
    let ns = spread (shifted e.donor e.recip (size_of obs coll s.shard_id) t) in
    if (not (s.peer_id == e.donor) || holds shards s.shard_id e.recip) || leb (sub64 e.mx e.mn) ns
    then best
    else better best (record { coll = coll; shard_id = s.shard_id; new_spread = ns })

unfoldable pub weigh_shards :
    Observation
    → List (ℕ × ℕ)
    → Extremes
    → Text
    → List ShardInfo
    → List ShardInfo
    → Option Candidate
    → Option Candidate
unfolding weigh
weigh_shards obs t e coll shards [] best = best
weigh_shards obs t e coll shards (s ∷ rest) best =
    weigh_shards obs t e coll shards rest (weigh obs t e coll shards best s)

unfoldable pub weigh_all :
    Observation → List (ℕ × ℕ) → Extremes → List Text → Option Candidate → Option Candidate
unfolding weigh_shards find_text
weigh_all obs t e [] best = best
weigh_all obs t e (coll ∷ names) best =
    weigh_all obs t e names (elim (find_text coll obs.collections) [
      | none ↦ best
      | some cc ↦ weigh_shards obs t e coll cc.shards cc.shards best
    ])

abbrev pub start : Extremes
start = record { mx = 0; donor = 0; mn = max_uint64; recip = 0 }

-- The gap is worth a move: two peers, ten thousand points and a factor of two apart.
unfoldable pub is_imbalanced : Extremes → Bool
unfolding float64
is_imbalanced e = not (
    (e.donor == e.recip || ltb (sub64 e.mx e.mn) size_min_delta)
    || ltb (float64 e.mx) (2 * float64 (max e.mn 1)))

unfoldable pub plan_size_rebalance : Observation → List PlannedMove
unfolding totals extremes is_imbalanced weigh_all sorted_names
plan_size_rebalance obs =
    let t = totals obs in
    let e = extremes start t in
    if ltb (length obs.peers) 2 || not obs.sizes_complete
    then []
    else if not (is_imbalanced e)
    then []
    else elim (weigh_all obs t e (sorted_names obs) none) [
      | none ↦ []
      | some b ↦
          record {
            collection = b.coll;
            shard_id = b.shard_id;
            source = e.donor;
            target = e.recip;
            drop = false;
            replicate = false;
            from_count = 0;
            to_count = 0;
          }
          ∷ []
    ]
