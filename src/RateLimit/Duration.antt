-- ===== src/RateLimit/Duration.antt =====
-- `format_duration` and `parse_duration_string`. A slice that does not begin at a character is a
-- panic, a value of its own here.
pub mod Digits
pub mod RoundTrip
pub mod Panics
use agcp.Prelude.{
  ℕ, zero, suc, ◌+◌, ◌-◌, ◌*◌, ◌/◌, ◌%◌, ◌^◌, Bool, true, false, ◌&&◌, not, Option, none, some,
  List, [], ◌∷◌, ◌++◌, ltb, leb, ◌==◌, if◌then◌else◌,
}
use agcp.Prelude.Text.{Bytes, split_at_byte, is_some}

pub data Outcome (A : Type 0) : Type 0 where
  panic : Outcome A
  ok : A → Outcome A

infixl 20 ◌and_then◌
abbrev pub ◌and_then◌ : {A B : Type 0} → Outcome A → (A → Outcome B) → Outcome B
panic and_then f = panic
(ok a) and_then f = f a

-- `n.to_string()`; an `u64` has 20 digits at most.
unfoldable pub decimal : ℕ → ℕ → Bytes
decimal zero n = []
decimal (suc fuel) n =
    let front = decimal fuel (n / 10) in
    let digit = b'0' + n % 10 in if ltb n 10 then digit ∷ [] else front ++ digit ∷ []

abbrev pub to_string : ℕ → Bytes
to_string n = decimal 20 n

unfoldable pub format_duration : ℕ → Bytes
format_duration ms =
    let total_secs = ms / 1000 in
    let hours = total_secs / 3600 in
    let mins = total_secs % 3600 / 60 in
    let secs = total_secs % 60 in
    if ltb 0 hours
    then to_string hours ++ b'h' ∷ (to_string mins ++ b'm' ∷ (to_string secs ++ b's' ∷ []))
    else if ltb 0 mins
    then to_string mins ++ b'm' ∷ (to_string secs ++ b's' ∷ [])
    else to_string secs ++ b's' ∷ []

abbrev pub is_digit : ℕ → Bool
is_digit b = leb b'0' b && leb b b'9'

-- The digits at the end of a text, and the byte before them.
unfoldable pub last_run : Bytes → Option ℕ → Bytes → Bytes × Option ℕ
last_run run before [] = (run, before)
last_run run before (b ∷ s) =
    if is_digit b then last_run (run ++ b ∷ []) before s else last_run [] (some b) s

-- The byte behind the start of a longer character is inside it.
abbrev pub is_wide : Option ℕ → Bool
is_wide none = false
is_wide (some b) = leb 128 b

-- `&text[start..pos]`, from the last character that is not a digit on
unfoldable pub digits_before : Bytes → Outcome Bytes
digits_before text =
    let (run, before) = last_run [] none text in if is_wide before then panic else ok run

abbrev pub value_from : ℕ → Bytes → ℕ
value_from n [] = n
value_from n (b ∷ s) = value_from (n * 10 + (b - b'0')) s

-- `parse::<u64>()` of a run of digits
unfoldable pub parse_u64 : Bytes → Option ℕ
parse_u64 [] = none
parse_u64 (b ∷ s) = let n = value_from 0 (b ∷ s) in if ltb n (2 ^ 64) then some n else none

unfoldable pub number_before : Bytes → Outcome (Option ℕ)
unfolding digits_before parse_u64
number_before [] = ok none
number_before (b ∷ s) = digits_before (b ∷ s) and_then λ run. ok (parse_u64 run)

unfoldable pub parse_hours : Bytes → Outcome (Option ℕ)
unfolding number_before
parse_hours text = elim (split_at_byte b'h' text) [
  | none ↦ ok none
  | some (before, after) ↦ number_before before
]

abbrev starts_with_s : Bytes → Bool
starts_with_s [] = false
starts_with_s (b ∷ s) = b == b's'

-- A text that goes on with "s" has milliseconds.
unfoldable pub parse_mins : Bytes → Outcome (Option ℕ)
unfolding number_before
parse_mins text = elim (split_at_byte b'm' text) [
  | none ↦ ok none
  | some (before, after) ↦ if starts_with_s after then ok none else number_before before
]

-- `i > 0`, and the byte before is not "m"
abbrev ends_with_m : Bool → Bytes → Bool
ends_with_m found [] = found
ends_with_m found (b ∷ s) = ends_with_m (b == b'm') s

unfoldable pub or_go_on : Outcome (Option ℕ) → Option ℕ → Outcome (Option ℕ)
or_go_on rest none = rest
or_go_on rest (some n) = ok (some n)

-- The loop over the characters, behind those of `before`.
unfoldable pub parse_secs : Bytes → Bytes → Outcome (Option ℕ)
unfolding number_before or_go_on
parse_secs before [] = ok none
parse_secs before (c ∷ text) =
    let rest = parse_secs (before ++ c ∷ []) text in
    if c == b's' && not (ends_with_m false before)
    then number_before before and_then or_go_on rest
    else rest

-- The milliseconds of a number of units, if there is one.
abbrev pub unit_ms : ℕ → Option ℕ → ℕ
unit_ms unit none = 0
unit_ms unit (some n) = n * unit % 2 ^ 64

abbrev pub total_ms : Option ℕ → Option ℕ → Option ℕ → Option ℕ
total_ms none none none = none
total_ms h m s = some ((unit_ms 3_600_000 h + unit_ms 60_000 m + unit_ms 1000 s) % 2 ^ 64)

unfoldable pub parse_duration_string : Bytes → Outcome (Option ℕ)
unfolding parse_hours parse_mins parse_secs
parse_duration_string text = parse_hours text and_then λ h.
    parse_mins text and_then λ m. parse_secs [] text and_then λ s. ok (total_ms h m s)
