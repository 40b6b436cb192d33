-- ===== src/Rebalance/Backoff.antt =====
-- `backoff` of internal/controller/rebalance.go. An int32 is a bit pattern below 2 ^ 32.
use qdrant_operator.Common.{ℕ, ◌+◌, ◌-◌, ◌*◌, ◌%◌, ◌^◌, min, ltb, if◌then◌else◌}
use qdrant_operator.Pass.{seconds, minutes}

abbrev pub add_int32 : ℕ → ℕ → ℕ
add_int32 a b = (a + b) % 4294967296

abbrev pub sub_int32 : ℕ → ℕ → ℕ
sub_int32 a b = (a + 4294967296 - b) % 4294967296

-- `max(n, 0)` of the signed value.
abbrev pub nonneg_int32 : ℕ → ℕ
nonneg_int32 n = if ltb n 2147483648 then n else 0

-- `30s << exp`, at most ten minutes.
unfoldable pub backoff : ℕ → ℕ
backoff level =
    let exp = min (nonneg_int32 (sub_int32 level 1)) 5 in
    let d = min (seconds 30 * 2 ^ exp) (minutes 10) in if ltb 0 d then d else minutes 10
