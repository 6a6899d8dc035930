-- ===== src/RateLimit/Backoff.antt =====
-- The exponential backoff, in saturating 64-bit arithmetic.
use native.Mathlib.Nat.{pow-le-pow_right}
use native.Mathlib.Decide.{dec_le}
use agcp.Prelude.{ℕ, zero, suc, ◌-◌, ◌*◌, ◌^◌, ◌≤◌, ◌≡◌, arith, min, max}

abbrev pub first_retry_delay_ms : ℕ
first_retry_delay_ms = 1000

abbrev pub max_backoff_ms : ℕ
max_backoff_ms = 60_000

abbrev u64_max : ℕ
u64_max = 2 ^ 64 - 1

saturating_pow : ℕ → ℕ → ℕ
saturating_pow b n = min (b ^ n) u64_max

saturating_mul : ℕ → ℕ → ℕ
saturating_mul a b = min (a * b) u64_max

-- `attempt.saturating_sub(1)` is the truncated difference.
unfoldable pub calculate_backoff : ℕ → ℕ → ℕ
unfolding saturating_pow saturating_mul
calculate_backoff base_delay attempt =
    let multiplier = saturating_pow 2 (attempt - 1) in
    let delay = saturating_mul base_delay multiplier in max (min delay max_backoff_ms) base_delay

saturated :
    (base m : ℕ)
    → max (min (min (base * min m u64_max) u64_max) max_backoff_ms) base
      ≡ max base (min (base * m) max_backoff_ms)
saturated zero m = omega arith
saturated (suc b) m = elim (dec_le m u64_max) [
  | yes fits ↦ let e : min m u64_max ≡ m = omega arith in rw e (omega arith)
  | no over ↦ let e : min m u64_max ≡ u64_max = omega arith in rw e (omega arith)
]

-- The saturation never shows: the wait is the base doubled for each attempt but the first, cut at
-- a minute, and never below the base.
calculate_backoff_lem :
    (base attempt : ℕ)
    → calculate_backoff base attempt ≡ max base (min (base * 2 ^ (attempt - 1)) max_backoff_ms)
unfolding calculate_backoff
calculate_backoff_lem base attempt = saturated base (2 ^ (attempt - 1))

-- A longer series of failures never waits less, and no wait leaves its bounds.
pub calculate_backoff_mono :
    (base a b : ℕ)
    → a ≤ b
    → (calculate_backoff base a ≤ calculate_backoff base b)
      × (base ≤ calculate_backoff base a)
      × (calculate_backoff base b ≤ max base max_backoff_ms)
calculate_backoff_mono base a b h =
    let p : 2 ^ (a - 1) ≤ 2 ^ (b - 1) = pow-le-pow_right (omega arith) (omega arith) in
    rw (calculate_backoff_lem base a, calculate_backoff_lem base b) (grind arith)
