-- ===== src/CloudCode/Finish.antt =====
-- Each attempt uses up a retry, so that both calls end, and end in time.
use agcp.Prelude.{
  Option, min, inl, inr, ℕ, zero, suc, ◌+◌, ◌-◌, ◌*◌, ◌≤◌, ◌<◌, ◌≡◌, refl, arith, some, none, true,
}
use agcp.Prelude.Text.{Bytes}
use agcp.CloudCode.Rounds.{
  Env, State, End, endpoints, max_capacity_retries, start, all_failed, rate_limited, wait_for_reset,
  by_reset, backoff_now, capacity_wait, actual_wait,
}
use agcp.RateLimit.Backoff.{first_retry_delay_ms}
use agcp.RateLimit.Duration.{Outcome, panic, ok}
use agcp.RateLimit.Reset.{parse_reset_time}
use agcp.CloudCode.Send.{
  Client, Codecs, Reply, Body, attempt, attempt_stream, request_endpoints, stream_endpoints,
  on_error, on_response, on_google_error, on_status, post,
}
use agcp.Prelude.{◌⊎◌}
use agcp.CloudCode.Rations.{posts, waits, on_time, in_fuel, Uses, over_endpoints-Total}
use agcp.Error.{Error}
use agcp.Format.Google.{GoogleError, GenerateContentResponse}
use agcp.Prelude.Map.{Map}
use agcp.RateLimit.Attempts.{RateLimitState}
use agcp.CloudCode.Send.{by_result, Result, body_text, unless_error, on_reply, within, decoded}

all_failed_lem : {A : Type 0} (end : End A) → in_fuel end ≡ true → in_fuel (all_failed end) ≡ true
all_failed_lem (End.broke s) h = refl
all_failed_lem (End.answer a) h = refl
all_failed_lem (End.error e) h = refl
all_failed_lem End.panicked h = refl
all_failed_lem End.out_of_fuel h = h

-- The attempts use their retries.
module _ (env : Env) (codecs : Codecs) (client : Client) (model : Bytes) where
  backoff_now_keeps :
      (retry_after : Option ℕ) (s : State)
      → let s' = (backoff_now env model retry_after s).0 in
        (s'.retry_count ≡ s.retry_count)
        × (s'.capacity_retry_count ≡ s.capacity_retry_count)
        × (s'.elapsed ≡ s.elapsed)
  unfolding backoff_now
  backoff_now_keeps retry_after s = (refl, refl, refl)

  capacity_wait_le : (n : ℕ) → capacity_wait n ≤ 60_000
  unfolding capacity_wait
  capacity_wait_le zero = omega arith
  capacity_wait_le (suc zero) = omega arith
  capacity_wait_le (suc (suc zero)) = omega arith
  capacity_wait_le (suc (suc (suc zero))) = omega arith
  capacity_wait_le (suc (suc (suc (suc n)))) =
      let e : min (suc (suc (suc (suc n)))) 4 ≡ 4 = omega arith in rw e (omega arith)

  abbrev none_left : ℕ → ℕ
  none_left n = 0

  abbrev capacity_left : ℕ → ℕ
  capacity_left n = max_capacity_retries - n

  module _ (A : Type 0) (ration : ℕ → ℕ) (falls : (n : ℕ) → ration (n + 1) ≤ ration n) where
    wait_for_reset-Uses :
        (text : Bytes) (wait_ms : ℕ) (reset_time : Bytes) (s : State)
        → s.retry_count < client.max_retries
        → s.elapsed ≤ 120_000
        → Uses client.max_retries ration {A = A} s (
            wait_for_reset env model text wait_ms reset_time
              (record s { retry_count = s.retry_count + 1 }))
    unfolding wait_for_reset actual_wait
    wait_for_reset-Uses text wait_ms reset_time s h d =
        ground
          (arith, backoff_now_keeps (some wait_ms) (record s { retry_count = s.retry_count + 1 }))

    by_reset-Uses :
        (text : Bytes) (s : State) (o : Outcome (ℕ × Bytes))
        → s.retry_count < client.max_retries
        → s.elapsed ≤ 120_000
        → Uses client.max_retries ration {A = A} s
            (by_reset env model text (record s { retry_count = s.retry_count + 1 }) o)
    unfolding by_reset
    by_reset-Uses text s panic h d = tt
    by_reset-Uses text s (ok (wait_ms, reset_time)) h d = ground (
      arith,
      falls s.capacity_retry_count,
      capacity_wait_le s.capacity_retry_count,
      wait_for_reset-Uses text wait_ms reset_time s h d,
    )

    rate_limited-Uses :
        (text : Bytes) (s : State)
        → s.retry_count < client.max_retries
        → s.elapsed ≤ 120_000
        → Uses client.max_retries ration {A = A} s
            (rate_limited env model text (record s { retry_count = s.retry_count + 1 }))
    unfolding rate_limited
    rate_limited-Uses text s h d =
        by_reset-Uses text s (parse_reset_time env.reset text first_retry_delay_ms) h d

    on_google_error-Uses :
        (e : GoogleError) (s : State)
        → s.elapsed ≤ 120_000
        → Uses client.max_retries ration {A = A} s (on_google_error env codecs client model e s)
    unfolding on_google_error
    on_google_error-Uses e s d = ground (arith, rate_limited-Uses e.message s)

    on_error-Uses :
        (e : Error) (s : State)
        → s.elapsed ≤ 120_000
        → Uses client.max_retries ration {A = A} s (on_error env codecs client model e s)
    unfolding on_error
    on_error-Uses e s d =
        ground (arith, backoff_now_keeps none (record s { retry_count = s.retry_count + 1 }))

  unless_error-Uses :
      (o : Option GoogleError) (r : GenerateContentResponse codecs.Json) (s : State)
      → s.elapsed ≤ 120_000
      → Uses client.max_retries none_left s (unless_error env codecs client model o r s)
  unfolding unless_error
  unless_error-Uses none r s d = tt
  unless_error-Uses (some e) r s d =
      on_google_error-Uses (GenerateContentResponse codecs.Json) none_left (λ n. omega arith) e s d

  on_response-Uses :
      (r : GenerateContentResponse codecs.Json) (s : State)
      → s.elapsed ≤ 120_000
      → Uses client.max_retries none_left s (on_response env codecs client model r s)
  unfolding on_response
  on_response-Uses r s d = unless_error-Uses r.error r s d

  decoded-Uses :
      (r : GenerateContentResponse codecs.Json ⊎ Bytes) (s : State)
      → s.elapsed ≤ 120_000
      → Uses client.max_retries none_left s (decoded env codecs client model r s)
  decoded-Uses (inl r) s d = on_response-Uses r s d
  decoded-Uses (inr text) s d = tt

  by_result-Uses :
      (o : Outcome (Result Bytes)) (s : State)
      → s.elapsed ≤ 120_000
      → Uses client.max_retries none_left s (by_result env codecs client model o s)
  unfolding by_result
  by_result-Uses panic s d = tt
  by_result-Uses (ok (Result.bad e)) s d =
      on_error-Uses (GenerateContentResponse codecs.Json) none_left (λ n. omega arith) e s d
  by_result-Uses (ok (Result.good bytes)) s d = decoded-Uses (codecs.from_slice bytes) s d

  within-Uses :
      (r : Option Reply) (s : State)
      → s.elapsed ≤ 120_000
      → Uses client.max_retries none_left s (within env codecs client model r s)
  within-Uses none s d = (omega arith, refl)
  within-Uses (some r) s d = by_result-Uses (post env codecs client model r) s d

  attempt-Uses :
      (reply : ℕ → Option Reply) (s : State)
      → s.elapsed ≤ 120_000
      → Uses client.max_retries none_left s (attempt env codecs client model reply s)
  unfolding attempt
  attempt-Uses reply s d = within-Uses (reply s.sent) s d

  on_status-Uses :
      (status : ℕ) (body : Bytes) (s : State)
      → s.elapsed ≤ 120_000
      → Uses client.max_retries capacity_left {A = ℕ × Body} s
          (on_status env codecs client model status body s)
  unfolding on_status
  on_status-Uses status body s d = ground (
    arith,
    capacity_wait_le s.capacity_retry_count,
    rate_limited-Uses (ℕ × Body) capacity_left (λ n. omega arith) body s,
  )

  on_reply-Uses :
      (r : Reply) (s : State)
      → s.elapsed ≤ 120_000
      → Uses client.max_retries capacity_left s (on_reply env codecs client model r s)
  unfolding on_reply
  on_reply-Uses (Reply.failed text) s d = (omega arith, refl)
  on_reply-Uses (Reply.response status body) s d =
      ground (arith, on_status-Uses status (body_text env codecs client model body) s)

  attempt_stream-Uses :
      (reply : ℕ → Reply) (s : State)
      → s.elapsed ≤ 120_000
      → Uses client.max_retries capacity_left s (attempt_stream env codecs client model reply s)
  unfolding attempt_stream
  attempt_stream-Uses reply s d = on_reply-Uses (reply s.sent) s d

  -- `request_endpoints` always ends, by itself or in a panic: it posts at most once more than the
  -- retries allow at each of the two endpoints, nothing behind the deadline of two minutes, and
  -- its sleeps are three minutes together at most.
  pub request_endpoints_finishes :
      (reply : ℕ → Option Reply) (elapsed : ℕ) (m : Map RateLimitState)
      → let (actions, end) = request_endpoints env codecs client model reply (start elapsed m) in
        (in_fuel end ≡ true)
        × (posts actions ≤ 2 * (client.max_retries + 1))
        × (waits actions ≤ 180_000)
        × (on_time actions ≡ true)
  unfolding request_endpoints
  request_endpoints_finishes reply elapsed m =
      let t =
        over_endpoints-Total client.max_retries none_left env model
          (attempt env codecs client model reply) (attempt-Uses reply) (client.max_retries + 1)
          endpoints (start elapsed m) (λ s. omega arith) in
      (all_failed_lem _ t.0, omega (arith, t.1), omega (arith, t.2), t.3)

  -- `stream_endpoints` always ends, if each request has a reply: it posts at most once more
  -- than the retries allow at each of the two endpoints, and five times more for a capacity that
  -- is exhausted, nothing behind the deadline, and its sleeps are three minutes together at most.
  pub stream_endpoints_finishes :
      (reply : ℕ → Reply) (elapsed : ℕ) (m : Map RateLimitState)
      → let (actions, end) = stream_endpoints env codecs client model reply (start elapsed m) in
        (in_fuel end ≡ true)
        × (posts actions ≤ 2 * (client.max_retries + 1) + 5)
        × (waits actions ≤ 180_000)
        × (on_time actions ≡ true)
  unfolding stream_endpoints
  stream_endpoints_finishes reply elapsed m =
      let t =
        over_endpoints-Total client.max_retries capacity_left env model
          (attempt_stream env codecs client model reply) (attempt_stream-Uses reply)
          (client.max_retries + max_capacity_retries + 1) endpoints (start elapsed m)
          (λ s. omega arith) in
      (all_failed_lem _ t.0, omega (arith, t.1), omega (arith, t.2), t.3)
