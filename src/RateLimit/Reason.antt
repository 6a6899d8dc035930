-- ===== src/RateLimit/Reason.antt =====
-- The reason behind an error text, and the wait that follows from it. `to_lowercase` is the
-- Unicode mapping of the standard library.
use agcp.Prelude.{
  ℕ, zero, suc, ◌≤◌, ◌≡◌, refl, ◌-◌, Bool, Option, none, some, List, [], ◌∷◌, arith, ltb, any, min,
  max, if◌then◌else◌, length, get_or,
}
use agcp.Prelude.Text.{Bytes, codes, contains}

abbrev pub min_backoff_ms : ℕ
min_backoff_ms = 2000

pub data RateLimitReason : Type 0 where
  quota_exhausted model_capacity_exhausted rate_limit_exceeded server_error unknown :
      RateLimitReason

unfoldable pub contains_any : Bytes → List Bytes → Bool
unfolding contains
contains_any text needles = any (contains text) needles

abbrev pub quota_words : List Bytes
quota_words =
    codes "quota_exhausted"
    ∷ codes "quotaresetdelay"
    ∷ codes "quotaresettimestamp"
    ∷ codes "resource_exhausted"
    ∷ codes "daily limit"
    ∷ codes "quota exceeded"
    ∷ []

abbrev pub capacity_words : List Bytes
capacity_words =
    codes "model_capacity_exhausted"
    ∷ codes "capacity_exhausted"
    ∷ codes "model is currently overloaded"
    ∷ codes "service temporarily unavailable"
    ∷ []

abbrev pub rate_words : List Bytes
rate_words =
    codes "rate_limit_exceeded"
    ∷ codes "rate limit"
    ∷ codes "too many requests"
    ∷ codes "throttl"
    ∷ []

abbrev pub server_words : List Bytes
server_words =
    codes "internal server error"
    ∷ codes "server error"
    ∷ codes "503"
    ∷ codes "502"
    ∷ codes "504"
    ∷ []

abbrev pub quota_exhausted_backoff_tiers_ms : List ℕ
quota_exhausted_backoff_tiers_ms = 60_000 ∷ 300_000 ∷ 1_800_000 ∷ 7_200_000 ∷ []

unfoldable pub tier_at : ℕ → ℕ
tier_at n =
    get_or quota_exhausted_backoff_tiers_ms (min n (length quota_exhausted_backoff_tiers_ms - 1)) 0

tier_value :
    (n : ℕ)
    → tier_at n ≡ (
        if ltb n 1
        then 60_000
        else if ltb n 2
        then 300_000
        else if ltb n 3
        then 1_800_000
        else 7_200_000)
unfolding tier_at
tier_value zero = refl
tier_value (suc zero) = refl
tier_value (suc (suc zero)) = refl
tier_value (suc (suc (suc n))) =
    let e : min (suc (suc (suc n))) 3 ≡ 3 = omega arith in rw e (ground arith)

tier_mono : (a b : ℕ) → a ≤ b → tier_at a ≤ tier_at b
tier_mono a b h = ground (arith, tier_value a, tier_value b)

-- `unwrap_or(0)`
abbrev get_default : Option ℕ → ℕ
get_default none = 0
get_default (some n) = n

module _ (to_lowercase : Bytes → Bytes) where
  unfoldable pub parse_rate_limit_reason : Bytes → RateLimitReason
  unfolding contains_any
  parse_rate_limit_reason error_text =
      let lower = to_lowercase error_text in
      if contains_any lower quota_words
      then quota_exhausted
      else if contains_any lower capacity_words
      then model_capacity_exhausted
      else if contains_any lower rate_words
      then rate_limit_exceeded
      else if contains_any lower server_words
      then server_error
      else unknown

  unfoldable pub is_model_capacity_exhausted : Bytes → Bool
  unfolding contains_any
  is_model_capacity_exhausted error_text = contains_any (to_lowercase error_text) capacity_words

  unfoldable pub backoff_for : RateLimitReason → ℕ → ℕ
  backoff_for quota_exhausted consecutive_failures = tier_at consecutive_failures
  backoff_for rate_limit_exceeded consecutive_failures = 30_000
  backoff_for model_capacity_exhausted consecutive_failures = 15_000
  backoff_for server_error consecutive_failures = 20_000
  backoff_for unknown consecutive_failures = 60_000

  -- A reset time of the server, if it gives one that is not zero.
  server_reset : Option ℕ → Option ℕ
  server_reset none = none
  server_reset (some reset_ms) = if ltb 0 reset_ms then some (max reset_ms min_backoff_ms) else none

  unfoldable pub calculate_smart_backoff : Bytes → Option ℕ → ℕ → ℕ
  unfolding backoff_for server_reset
  calculate_smart_backoff error_text server_reset_ms consecutive_failures =
      elim (server_reset server_reset_ms) [
        | some wait ↦ wait
        | none ↦ backoff_for (parse_rate_limit_reason error_text) consecutive_failures
      ]

  backoff_for_mono : (r : RateLimitReason) (a b : ℕ) → a ≤ b → backoff_for r a ≤ backoff_for r b
  unfolding backoff_for
  backoff_for_mono quota_exhausted a b h = tier_mono a b h
  backoff_for_mono _ a b h = omega arith

  -- Without a reset time of the server, the wait grows with the failures; with one, it is that time,
  -- or the minimum. It is never below two seconds, and at most two hours unless the server says so.
  calculate_smart_backoff_bounds :
      (text : Bytes) (reset : Option ℕ) (a b : ℕ)
      → a ≤ b
      → (calculate_smart_backoff text reset a ≤ calculate_smart_backoff text reset b)
        × (min_backoff_ms ≤ calculate_smart_backoff text reset a)
        × (calculate_smart_backoff text reset b ≤ max (get_default reset) 7_200_000)
  unfolding calculate_smart_backoff
  calculate_smart_backoff_bounds text reset a b h =
      ground (arith, tier_mono a b h, tier_value a, tier_value b)
