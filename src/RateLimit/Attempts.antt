-- ===== src/RateLimit/Attempts.antt =====
-- The attempts counted for each model: `RATE_LIMIT_STATE` and its two critical sections. Instants
-- are nanoseconds of a monotonic clock, and each `elapsed()` is a reading of its own.
use agcp.Prelude.{
  ℕ, ◌+◌, ◌-◌, ◌/◌, ◌%◌, ◌^◌, ◌≤◌, ◌<◌, ◌≡◌, ◌≢◌, Bool, true, false, Option, none, some, List, [],
  ◌∷◌, arith, ltb, length, if◌then◌else◌,
}
use agcp.Prelude.Text.{Bytes, text_eq_iff}
use agcp.Prelude.Map
use agcp.Prelude.Map.{Map, get-insert, get-remove}
use agcp.RateLimit.Backoff.{calculate_backoff, first_retry_delay_ms}

abbrev pub rate_limit_dedup_window_ms : ℕ
rate_limit_dedup_window_ms = 2000

abbrev pub rate_limit_state_reset_ms : ℕ
rate_limit_state_reset_ms = 120_000

pub record RateLimitState : Type 0 where
  pub consecutive_429 : ℕ
  pub last_at : ℕ

pub record RateLimitBackoff : Type 0 where
  pub attempt : ℕ
  pub delay_ms : ℕ
  pub is_duplicate : Bool

-- The clock readings of one call, and what the server asked for.
pub record Call : Type 0 where
  pub now : ℕ
  pub read_at : ℕ
  pub write_at : ℕ
  pub server_retry_after_ms : Option ℕ

-- `last_at.elapsed().as_millis() as u64`
abbrev elapsed_ms : ℕ → ℕ → ℕ
elapsed_ms reading last_at = (reading - last_at) / 1_000_000 % 2 ^ 64

abbrev base_delay : Option ℕ → ℕ
base_delay none = first_retry_delay_ms
base_delay (some ms) = ms

answer : ℕ → Call → Bool → RateLimitBackoff
answer attempt c is_duplicate = record {
  attempt = attempt;
  delay_ms = calculate_backoff (base_delay c.server_retry_after_ms) attempt;
  is_duplicate = is_duplicate;
}

in_window : Call → Option RateLimitState → Option RateLimitBackoff
unfolding answer
in_window c none = none
in_window c (some state) =
    if ltb (elapsed_ms c.read_at state.last_at) rate_limit_dedup_window_ms
    then some (answer state.consecutive_429 c true)
    else none

-- Under the read lock: the answer to a call within the window.
unfoldable pub check_window : Bytes → Call → Map RateLimitState → Option RateLimitBackoff
unfolding in_window
check_window model c state_map = in_window c (Map.get model state_map)

next_attempt : Call → Option RateLimitState → ℕ
next_attempt c none = 1
next_attempt c (some state) =
    if ltb (elapsed_ms c.write_at state.last_at) rate_limit_state_reset_ms
    then (state.consecutive_429 + 1) % 2 ^ 32
    else 1

-- Under the write lock: one more attempt.
unfoldable pub record_attempt :
    Bytes → Call → Map RateLimitState → Map RateLimitState × RateLimitBackoff
unfolding next_attempt answer
record_attempt model c state_map =
    let attempt = next_attempt c (Map.get model state_map) in
    (
      Map.insert model (record { consecutive_429 = attempt; last_at = c.now }) state_map,
      answer attempt c false,
    )

-- A call that no other one comes between.
unfoldable pub get_rate_limit_backoff :
    Bytes → Call → Map RateLimitState → Map RateLimitState × RateLimitBackoff
unfolding check_window record_attempt
get_rate_limit_backoff model c state_map = elim (check_window model c state_map) [
  | some backoff ↦ (state_map, backoff)
  | none ↦ record_attempt model c state_map
]

unfoldable pub clear_rate_limit_state : Bytes → Map RateLimitState → Map RateLimitState
clear_rate_limit_state model state_map = Map.remove model state_map

-- After a recorded attempt, a call within two seconds of it is a duplicate: it has the number of
-- that attempt, and changes nothing.
duplicate_in_window :
    (model : Bytes) (c d : Call) (m : Map RateLimitState)
    → d.read_at - c.now < 2_000_000_000
    → let (m', first) = record_attempt model c m in
      get_rate_limit_backoff model d m' ≡ (
        m',
        record {
          attempt = first.attempt;
          delay_ms = calculate_backoff (base_delay d.server_retry_after_ms) first.attempt;
          is_duplicate = true;
        },
      )
unfolding get_rate_limit_backoff
duplicate_in_window model c d m h =
    let attempt = next_attempt c (Map.get model m) in
    ground (
      arith,
      get-insert model model (record { consecutive_429 = attempt; last_at = c.now }) m,
      text_eq_iff model model,
    )

-- Two calls that both looked before either wrote are both counted, however close they are: the
-- second write does not look again, though a look at that time would have found a duplicate.
pub concurrent_calls_both_count :
    (model : Bytes) (c d : Call) (m : Map RateLimitState)
    → check_window model c m ≡ none
    → check_window model d m ≡ none
    → d.read_at ≤ d.write_at
    → d.write_at - c.now < 2_000_000_000
    → let (m', first) = record_attempt model c m in
      let (m'', second) = record_attempt model d m' in
      (second.attempt ≡ (first.attempt + 1) % 2 ^ 32)
      × (second.is_duplicate ≡ false)
      × (check_window model d m' ≢ none)
unfolding check_window record_attempt
concurrent_calls_both_count model c d m h k t w =
    let attempt = next_attempt c (Map.get model m) in
    ground (
      arith,
      get-insert model model (record { consecutive_429 = attempt; last_at = c.now }) m,
      text_eq_iff model model,
    )

-- Calls one after another.
unfoldable pub run : Bytes → List Call → Map RateLimitState → Map RateLimitState
run model [] m = m
run model (c ∷ calls) m = run model calls (get_rate_limit_backoff model c m).0

-- Each call comes two seconds after the attempt before it, and less than two minutes.
abbrev pub Spaced : ℕ → List Call → Type 0
Spaced last [] = Unit
Spaced last (c ∷ calls) =
    (last + 2_000_000_000 ≤ c.read_at)
    × (c.read_at < last + 120_000_000_000)
    × (c.write_at < last + 120_000_000_000)
    × Spaced c.now calls

abbrev pub last_of : ℕ → List Call → ℕ
last_of last [] = last
last_of last (c ∷ calls) = last_of c.now calls

attempt_counted :
    (model : Bytes) (c : Call) (m : Map RateLimitState) (k last : ℕ)
    → Map.get model m ≡ some (record { consecutive_429 = k; last_at = last })
    → last + 2_000_000_000 ≤ c.read_at
    → c.read_at < last + 120_000_000_000
    → c.write_at < last + 120_000_000_000
    → k + 1 < 2 ^ 32
    → Map.get model (get_rate_limit_backoff model c m).0
      ≡ some (record { consecutive_429 = k + 1; last_at = c.now })
unfolding get_rate_limit_backoff
attempt_counted model c m k last e a b w s = ground (
  arith,
  get-insert model model (record { consecutive_429 = (k + 1) % 2 ^ 32; last_at = c.now }) m,
  text_eq_iff model model,
)

-- Calls that each come two seconds to two minutes after the attempt before are counted one by one,
-- as long as the count fits in 32 bits.
pub run_counts :
    (model : Bytes) (calls : List Call) (m : Map RateLimitState) (k last : ℕ)
    → Map.get model m ≡ some (record { consecutive_429 = k; last_at = last })
    → Spaced last calls
    → k + length calls < 2 ^ 32
    → Map.get model (run model calls m)
      ≡ some (record { consecutive_429 = k + length calls; last_at = last_of last calls })
unfolding run
run_counts model [] m k last e sp b = ground arith
run_counts model (c ∷ calls) m k last e sp b =
    let one = attempt_counted model c m k last e sp.0 sp.1 sp.2 (omega arith) in
    ground
      (arith, run_counts model calls (get_rate_limit_backoff model c m).0 (k + 1) c.now one sp.3)

-- After a success the next refusal of the model is its first again, and other models keep theirs.
clear_starts_over :
    (model other : Bytes) (c : Call) (m : Map RateLimitState)
    → model ≢ other
    → let (m', backoff) = get_rate_limit_backoff model c (clear_rate_limit_state model m) in
      (backoff.attempt ≡ 1) × (backoff.is_duplicate ≡ false) × (Map.get other m' ≡ Map.get other m)
unfolding get_rate_limit_backoff clear_rate_limit_state
clear_starts_over model other c m h = ground (
  arith,
  get-remove model model m,
  get-remove model other m,
  get-insert model other (record { consecutive_429 = 1; last_at = c.now }) (Map.remove model m),
  text_eq_iff model model,
  text_eq_iff model other,
)
