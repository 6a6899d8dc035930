-- ===== src/RateLimit/Reset.antt =====
-- `parse_reset_time`: when the upstream is to be asked again, read out of an error body.
use agcp.Prelude.{
  ℕ, ◌+◌, ◌*◌, ◌%◌, ◌^◌, ◌>>=◌, ◌≤◌, ◌≡◌, Option, none, some, [], ◌∷◌, arith, ltb, min,
  if◌then◌else◌,
}
use agcp.Prelude.Text.{Bytes, codes, text_eq, split_on}
use agcp.RateLimit.Duration.{
  Outcome, panic, ok, ◌and_then◌, is_digit, parse_u64, parse_duration_string, format_duration,
}

-- The regular expressions, the floating-point numbers and the calendar. `captures` has the groups
-- that took part in a match; `ms_until` reads a date and says how far ahead of now it is, with 0
-- for a date that is not.
pub record ResetExternals : Type 1 where
  pub to_lowercase : Bytes → Bytes
  pub delay_captures : Bytes → Option (Option Bytes × Option Bytes)
  pub F64 : Type 0
  pub parse_f64 : Bytes → Option F64
  pub times_1000 : F64 → F64
  pub ceil_u64 : F64 → ℕ
  pub timestamp_captures : Bytes → Option (Option Bytes)
  pub ms_until : Bytes → Option ℕ

-- The digits a text begins with.
unfoldable pub digits_of : Bytes → Bytes
digits_of [] = []
digits_of (b ∷ s) = let rest = digits_of s in if is_digit b then b ∷ rest else []

-- A text from its first digit on.
unfoldable pub from_digit : Bytes → Option Bytes
from_digit [] = none
from_digit (b ∷ s) = let rest = from_digit s in if is_digit b then some (b ∷ s) else rest

unfoldable pub parse_retry_after : Bytes → Option ℕ
unfolding split_on from_digit digits_of parse_u64
parse_retry_after text = do
  (before, after) ← split_on (codes "retry") text
  number ← from_digit after
  secs ← parse_u64 (digits_of number)
  some (secs * 1000 % 2 ^ 64)

unfoldable pub or_else : Option ℕ → Option ℕ → Option ℕ
or_else none second = second
or_else (some ms) second = some ms

-- The last two are tried only behind the first.
abbrev or_try : Option ℕ → Outcome (Option ℕ) → Outcome (Option ℕ)
or_try none second = second
or_try (some ms) second = ok (some ms)

unfoldable pub final_ms : Option ℕ → ℕ → ℕ
final_ms none default_ms = default_ms
final_ms (some ms) default_ms = if ltb 0 ms then if ltb ms 500 then ms + 200 else ms else 500

module _ (ext : ResetExternals) where
  unfoldable pub parse_quota_reset_delay : Bytes → Option ℕ
  parse_quota_reset_delay text = do
    (first, second) ← ext.delay_captures text
    digits ← first
    value ← ext.parse_f64 digits
    unit ← second
    some (
        if text_eq unit (codes "s")
        then ext.ceil_u64 (ext.times_1000 value)
        else ext.ceil_u64 value)

  abbrev until_or_500 : Option ℕ → Option ℕ
  until_or_500 none = none
  until_or_500 (some delta) = some (if ltb 0 delta then delta else 500)

  unfoldable pub parse_quota_reset_timestamp : Bytes → Option ℕ
  parse_quota_reset_timestamp text = do
    first ← ext.timestamp_captures text
    timestamp_str ← first
    until_or_500 (ext.ms_until timestamp_str)

  unfoldable pub reset_ms : Bytes → Outcome (Option ℕ)
  unfolding parse_duration_string parse_quota_reset_delay parse_quota_reset_timestamp
      parse_retry_after or_else
  reset_ms lower =
      or_try (or_else (parse_quota_reset_delay lower) (parse_quota_reset_timestamp lower))
        (parse_duration_string lower and_then λ ms. ok (or_else ms (parse_retry_after lower)))

  abbrev with_default : ℕ → Outcome (Option ℕ) → Outcome (ℕ × Bytes)
  with_default default_ms panic = panic
  with_default default_ms (ok ms) =
      ok (final_ms ms default_ms, format_duration (final_ms ms default_ms))

  unfoldable pub parse_reset_time : Bytes → ℕ → Outcome (ℕ × Bytes)
  unfolding reset_ms final_ms format_duration
  parse_reset_time error_body default_ms =
      with_default default_ms (reset_ms (ext.to_lowercase error_body))

  with_default_bounds :
      (o : Outcome (Option ℕ)) (default_ms wait_ms : ℕ) (text : Bytes)
      → with_default default_ms o ≡ ok (wait_ms, text)
      → (min 201 default_ms ≤ wait_ms) × (text ≡ format_duration wait_ms)
  unfolding final_ms
  with_default_bounds panic default_ms wait_ms text h = absurd (ground arith)
  with_default_bounds (ok none) default_ms wait_ms text h = ground arith
  with_default_bounds (ok (some ms)) default_ms wait_ms text h = ground arith

  -- The wait is never shorter than 201 ms, or than the default if that is less, and the text that
  -- comes with it is that wait in hours, minutes and seconds.
  pub parse_reset_time_bounds :
      (error_body : Bytes) (default_ms wait_ms : ℕ) (text : Bytes)
      → parse_reset_time error_body default_ms ≡ ok (wait_ms, text)
      → (min 201 default_ms ≤ wait_ms) × (text ≡ format_duration wait_ms)
  unfolding parse_reset_time final_ms
  parse_reset_time_bounds error_body default_ms wait_ms text h =
      with_default_bounds (reset_ms (ext.to_lowercase error_body)) default_ms wait_ms text h
