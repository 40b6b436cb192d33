-- ===== src/Rebalance/Delay.antt =====
-- The delay after a failure: its bounds, and how it grows.
use qdrant_operator.Common.{ℕ, zero, suc, ◌*◌, ◌^◌, ◌≤◌, ◌<◌, ◌≡◌, refl, arith, min}
use qdrant_operator.Pass.{seconds, minutes}
use qdrant_operator.Rebalance.Backoff.{backoff, sub_int32, nonneg_int32}

pow_positive : (n : ℕ) → 1 ≤ 2 ^ n
pow_positive zero = ground arith
pow_positive (suc n) = ground (arith, pow_positive n)

exponent : (k : ℕ) → suc k < 2 ^ 31 → nonneg_int32 (sub_int32 (suc k) 1) ≡ k
exponent k h = ground arith

-- Whatever the count of failures, a 32-bit pattern read as a signed number, the next attempt waits for
-- at least thirty seconds and at most ten minutes.
pub backoff_bounds :
    (level : ℕ) → level < 2 ^ 32 → (seconds 30 ≤ backoff level) × (backoff level ≤ minutes 10)
unfolding backoff
backoff_bounds level h = ground (arith, pow_positive (min (nonneg_int32 (sub_int32 level 1)) 5))

-- The delay after `k + 1` failures, `k` at most thirty-one bits wide.
capped_delay : ℕ → ℕ
capped_delay k = min (seconds 30 * 2 ^ min k 5) (minutes 10)

backoff-capped : (k : ℕ) → suc k < 2 ^ 31 → backoff (suc k) ≡ capped_delay k
unfolding backoff capped_delay
backoff-capped k h = rw (exponent k h) (ground (arith, pow_positive (min k 5)))

past_five : (k : ℕ) → min (suc (suc (suc (suc (suc k))))) 5 ≡ 5
past_five k = ground arith

capped_delay-suc : (k : ℕ) → capped_delay (suc k) ≡ min (capped_delay k * 2) (minutes 10)
unfolding capped_delay
capped_delay-suc zero = refl
capped_delay-suc (suc zero) = refl
capped_delay-suc (suc (suc zero)) = refl
capped_delay-suc (suc (suc (suc zero))) = refl
capped_delay-suc (suc (suc (suc (suc zero)))) = refl
capped_delay-suc (suc (suc (suc (suc (suc k))))) = rw (past_five k, past_five (suc k)) refl

-- The first failure costs thirty seconds, and each further one doubles the delay, up to ten minutes.
pub backoff_doubles :
    (k : ℕ)
    → suc (suc k) < 2 ^ 31
    → (backoff 1 ≡ seconds 30) × (backoff (suc (suc k)) ≡ min (backoff (suc k) * 2) (minutes 10))
unfolding capped_delay
backoff_doubles k b = (
  backoff-capped 0 (ground arith),
  rw (backoff-capped (suc k) b, backoff-capped k (ground arith)) (capped_delay-suc k),
)
