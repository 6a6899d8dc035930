-- ===== src/CloudCode/Rounds.antt =====
-- The loop that `send_request` and `send_streaming_request` share, around one attempt at an
-- endpoint. Time is in milliseconds since the call began: `took` says how long each round takes
-- besides the sleep it asks for. `others` is what concurrent requests do meanwhile to the global
-- table of attempts. The fuel bounds the rounds at one endpoint.
use agcp.Prelude.{
  ℕ, zero, suc, ◌+◌, ◌-◌, true, false, ◌&&◌, Option, none, some, List, [], ◌∷◌, ◌++◌, ltb, leb,
  ◌==◌, if◌then◌else◌, min, length, get_or,
}
use agcp.Prelude.Text.{Bytes, codes}
use agcp.Prelude.Map.{Map}
use agcp.Error.{Error, ApiError}
use agcp.RateLimit.Attempts.{Call, RateLimitState, RateLimitBackoff, get_rate_limit_backoff}
use agcp.RateLimit.Backoff.{first_retry_delay_ms}
use agcp.RateLimit.Duration.{Outcome, panic, ok}
use agcp.RateLimit.Reason.{is_model_capacity_exhausted, calculate_smart_backoff}
use agcp.RateLimit.Reset.{ResetExternals, parse_reset_time}

abbrev pub endpoints : List Bytes
endpoints =
    codes "https://daily-cloudcode-pa.googleapis.com"
    ∷ codes "https://cloudcode-pa.googleapis.com"
    ∷ []

abbrev pub max_wait_before_error_ms : ℕ
max_wait_before_error_ms = 120_000

abbrev pub default_cooldown_ms : ℕ
default_cooldown_ms = 10_000

abbrev pub max_capacity_retries : ℕ
max_capacity_retries = 5

abbrev pub capacity_backoff_tiers_ms : List ℕ
capacity_backoff_tiers_ms = 5000 ∷ 10_000 ∷ 20_000 ∷ 30_000 ∷ 60_000 ∷ []

-- The local variables, the table of attempts, the time and the number of requests sent.
pub record State : Type 0 where
  pub retry_count : ℕ
  pub capacity_retry_count : ℕ
  pub last_error : Option Error
  pub state_map : Map RateLimitState
  pub elapsed : ℕ
  pub sent : ℕ

-- How an attempt ends: `continue` after a sleep, `break`, or `return`.
pub data Round (A : Type 0) : Type 0 where
  again : (wait : ℕ) (s : State) → Round A
  next_endpoint : State → Round A
  done : State → A → Round A
  fail : State → Error → Round A
  panics : Round A

pub data Action : Type 0 where
  posted : (endpoint : Bytes) (elapsed_ms : ℕ) → Action
  slept : ℕ → Action

pub data End (A : Type 0) : Type 0 where
  broke : State → End A
  answer : A → End A
  error : Error → End A
  panicked : End A
  out_of_fuel : End A

unfoldable pub capacity_wait : ℕ → ℕ
capacity_wait n = get_or capacity_backoff_tiers_ms (min n (length capacity_backoff_tiers_ms - 1)) 0

abbrev quota_exhausted : Bytes → Bytes → Error
quota_exhausted model reset_time = Error.api (ApiError.quota_exhausted model reset_time)

-- Behind the deadline.
abbrev pub give_up : Bytes → Option Error → Error
give_up model none = quota_exhausted model (codes "unknown")
give_up model (some e) = e

-- What the calls of one round read, and the library's functions.
pub record Env : Type 1 where
  pub reset : ResetExternals
  pub took : ℕ → ℕ
  pub clocks : ℕ → ℕ × ℕ × ℕ
  pub others : ℕ → Map RateLimitState → Map RateLimitState

module _ (env : Env) (model : Bytes) where
  abbrev call_at : ℕ → Option ℕ → Call
  call_at n retry_after = record {
    now = (env.clocks n).0;
    read_at = (env.clocks n).1;
    write_at = (env.clocks n).2;
    server_retry_after_ms = retry_after;
  }

  unfoldable pub backoff_now : Option ℕ → State → State × RateLimitBackoff
  unfolding get_rate_limit_backoff
  backoff_now retry_after s =
      let (m, backoff) = get_rate_limit_backoff model (call_at s.sent retry_after) s.state_map in
      (record s { state_map = m }, backoff)

  unfoldable pub actual_wait : RateLimitBackoff → ℕ → ℕ → ℕ
  actual_wait backoff smart_backoff_ms elapsed_ms =
      min
        (if backoff.attempt == 1 && leb smart_backoff_ms default_cooldown_ms
          then backoff.delay_ms
          else smart_backoff_ms)
        (max_wait_before_error_ms - elapsed_ms)

  -- A refusal with a reset time that is neither long nor short.
  unfoldable pub wait_for_reset : {A : Type 0} → Bytes → ℕ → Bytes → State → Round A
  unfolding backoff_now actual_wait calculate_smart_backoff
  wait_for_reset text wait_ms reset_time s0 =
      let (s, backoff) = backoff_now (some wait_ms) s0 in
      let smart = calculate_smart_backoff env.reset.to_lowercase text (some wait_ms) 0 in
      let wait = actual_wait backoff smart s.elapsed in
      if wait == 0
      then Round.fail s (quota_exhausted model reset_time)
      else Round.again wait (record s { last_error = some (quota_exhausted model reset_time) })

  abbrev pub wait_capacity : {A : Type 0} → State → Round A
  wait_capacity s =
      Round.again (capacity_wait s.capacity_retry_count)
        (record s { capacity_retry_count = s.capacity_retry_count + 1 })

  unfoldable pub by_reset : {A : Type 0} → Bytes → State → Outcome (ℕ × Bytes) → Round A
  unfolding wait_for_reset is_model_capacity_exhausted capacity_wait
  by_reset text s panic = Round.panics
  by_reset text s (ok (wait_ms, reset_time)) =
      if is_model_capacity_exhausted env.reset.to_lowercase text
        && ltb s.capacity_retry_count max_capacity_retries
      then wait_capacity s
      else if ltb max_wait_before_error_ms wait_ms
      then Round.fail s (quota_exhausted model reset_time)
      else if ltb wait_ms 1000
      then Round.again wait_ms s
      else wait_for_reset text wait_ms reset_time s

  -- A refusal with the code 429, its retry counted already.
  unfoldable pub rate_limited : {A : Type 0} → Bytes → State → Round A
  unfolding parse_reset_time by_reset
  rate_limited text s = by_reset text s (parse_reset_time env.reset text first_retry_delay_ms)

  abbrev pub begin_round : State → State
  begin_round s = record s { state_map = env.others s.sent s.state_map }

  -- The time of the next round.
  abbrev pub after : ℕ → ℕ → State → State
  after n wait s = record s { elapsed = s.elapsed + env.took n + wait; sent = n + 1 }

  module _ {A : Type 0} where
    -- What follows an attempt in the state `s`, with `rest` for the rounds behind a `continue`.
    unfoldable pub follow :
        (State → List Action × End A) → Bytes → State → Round A → List Action × End A
    follow rest endpoint s (Round.again wait s') =
        let (actions, end) = rest (after s.sent wait s') in
        (Action.posted endpoint s.elapsed ∷ Action.slept wait ∷ actions, end)
    follow rest endpoint s (Round.next_endpoint s') =
        (Action.posted endpoint s.elapsed ∷ [], End.broke (after s.sent 0 s'))
    follow rest endpoint s (Round.done s' a) = (Action.posted endpoint s.elapsed ∷ [], End.answer a)
    follow rest endpoint s (Round.fail s' e) = (Action.posted endpoint s.elapsed ∷ [], End.error e)
    follow rest endpoint s Round.panics = (Action.posted endpoint s.elapsed ∷ [], End.panicked)

    -- `rest` for the endpoints behind a `break`.
    unfoldable pub move_on :
        (State → List Action × End A) → List Action × End A → List Action × End A
    move_on rest (actions, End.broke s) = let (more, end) = rest s in (actions ++ more, end)
    move_on rest (actions, End.answer a) = (actions, End.answer a)
    move_on rest (actions, End.error e) = (actions, End.error e)
    move_on rest (actions, End.panicked) = (actions, End.panicked)
    move_on rest (actions, End.out_of_fuel) = (actions, End.out_of_fuel)

    module _ (attempt : State → Round A) where
      unfoldable pub loop : ℕ → Bytes → State → List Action × End A
      unfolding follow
      loop zero endpoint s = ([], End.out_of_fuel)
      loop (suc fuel) endpoint s = elim (ltb max_wait_before_error_ms s.elapsed) [
        | true ↦ ([], End.error (give_up model s.last_error))
        | false ↦ follow (loop fuel endpoint) endpoint s (attempt (begin_round s))
      ]

      -- The loop over the endpoints.
      unfoldable pub over_endpoints : ℕ → List Bytes → State → List Action × End A
      unfolding loop move_on
      over_endpoints fuel [] s = ([], End.broke s)
      over_endpoints fuel (endpoint ∷ rest) s =
          move_on (over_endpoints fuel rest) (loop fuel endpoint (record s { retry_count = 0 }))

abbrev pub start : ℕ → Map RateLimitState → State
start elapsed m = record {
  retry_count = 0;
  capacity_retry_count = 0;
  last_error = none;
  state_map = m;
  elapsed = elapsed;
  sent = 0;
}

abbrev pub failed_with : Option Error → Error
failed_with none = Error.http (codes "All endpoints failed")
failed_with (some e) = e

-- Behind the last endpoint.
abbrev pub all_failed : {A : Type 0} → End A → End A
all_failed (End.broke s) = End.error (failed_with s.last_error)
all_failed (End.answer a) = End.answer a
all_failed (End.error e) = End.error e
all_failed End.panicked = End.panicked
all_failed End.out_of_fuel = End.out_of_fuel
