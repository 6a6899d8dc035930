-- ===== src/CloudCode/Promises.antt =====
-- What both calls promise, their permit included.
use agcp.Prelude.{ℕ, ◌+◌, ◌*◌, ◌≤◌, ◌<◌, ◌≡◌, true, false, Option, List, arith}
use agcp.Prelude.Text.{Bytes}
use agcp.Prelude.Map.{Map}
use agcp.Error.{Error, ApiError}
use agcp.Format.Google.{GenerateContentResponse}
use agcp.RateLimit.Attempts.{RateLimitState}
use agcp.CloudCode.Answers.{IsAnswer, request_endpoints-answer}
use agcp.CloudCode.Calls.{after_sleep, permitted, sleep_of, send_request, send_streaming_request}
use agcp.CloudCode.Finish.{request_endpoints_finishes, stream_endpoints_finishes}
use agcp.CloudCode.Permit.{Arrival, wait_time, acquire_request_permit}
use agcp.CloudCode.Perseveres.{IsShortRefusal, request_endpoints_perseveres}
use agcp.CloudCode.Rations.{posts, waits, on_time, in_fuel}
use agcp.CloudCode.Rounds.{Env, Action, End, start}
use agcp.CloudCode.Send.{Client, Codecs, Reply, Result, request_endpoints, stream_endpoints}
use agcp.CloudCode.Told.{IsTold, request_endpoints-IsTold}

after_sleep_lem :
    (wait : ℕ) (actions : List Action)
    → (posts (after_sleep wait actions) ≡ posts actions)
      × (waits (after_sleep wait actions) ≡ wait + waits actions)
      × (on_time (after_sleep wait actions) ≡ on_time actions)
after_sleep_lem wait actions = ground arith

abbrev Within : {A : Type 0} → ℕ → ℕ → List Action × End A → Type 0
Within n ms (actions, end) =
    (in_fuel end ≡ true) × (posts actions ≤ n) × (waits actions ≤ ms) × (on_time actions ≡ true)

permitted-Within :
    {A : Type 0} (permit : Result ℕ) (wait interval n ms : ℕ) (run : List Action × End A)
    → wait ≤ interval
    → Within n ms run
    → Within n (interval + ms) (permitted permit wait run)
permitted-Within (Result.bad e) wait interval n ms run w h = ground arith
permitted-Within (Result.good now) wait interval n ms (actions, end) w h =
    ground (arith, after_sleep_lem wait actions)

permitted-answer :
    {A : Type 0} (permit : Result ℕ) (wait : ℕ) (run : List Action × End A) (a : A)
    → (permitted permit wait run).1 ≡ End.answer a
    → (run.1 ≡ End.answer a) × (posts (permitted permit wait run).0 ≡ posts run.0)
permitted-answer (Result.bad e) wait run a h = absurd (ground arith)
permitted-answer (Result.good now) wait (actions, end) a h = (h, (after_sleep_lem wait actions).0)

permitted-quota :
    {A : Type 0} (c : Arrival) (client : Client) (last wait : ℕ) (run : List Action × End A)
    (named reset_time : Bytes)
    → (permitted (acquire_request_permit client c last).1 wait run).1
      ≡ End.error (Error.api (ApiError.quota_exhausted named reset_time))
    → run.1 ≡ End.error (Error.api (ApiError.quota_exhausted named reset_time))
unfolding acquire_request_permit
permitted-quota c client last wait run named reset_time h = ground arith

module _ (env : Env) (codecs : Codecs) (client : Client) (model : Bytes) where
  sleep_of_le : (c : Arrival) (last : ℕ) → sleep_of client c last ≤ client.min_request_interval
  unfolding wait_time
  sleep_of_le c last = ground arith

  -- Once the client's semaphore and its lock let it through, or the semaphore is closed,
  -- `send_request` always ends, by itself or in a panic: it posts at most once more than the
  -- retries allow at each of the two endpoints, nothing behind the deadline of two minutes from its
  -- permit, and the sleeps that it asks for are at most the minimum interval of requests and three
  -- minutes together.
  pub send_request_finishes :
      (c : Arrival) (last : ℕ) (reply : ℕ → Option Reply) (elapsed : ℕ) (m : Map RateLimitState)
      → let (actions, end) = (send_request env codecs client model c last reply elapsed m).1 in
        (in_fuel end ≡ true)
        × (posts actions ≤ 2 * (client.max_retries + 1))
        × (waits actions ≤ client.min_request_interval + 180_000)
        × (on_time actions ≡ true)
  unfolding send_request
  send_request_finishes c last reply elapsed m =
      permitted-Within (acquire_request_permit client c last).1 (sleep_of client c last)
        client.min_request_interval (2 * (client.max_retries + 1)) 180_000
        (request_endpoints env codecs client model reply (start elapsed m)) (sleep_of_le c last)
        (request_endpoints_finishes env codecs client model reply elapsed m)

  -- Once the client's semaphore and its lock let it through, or the semaphore is closed,
  -- `send_streaming_request` always ends, if each request has a reply: it posts at most once more
  -- than the retries allow at each of the two endpoints, and five times more for a capacity that
  -- is exhausted, nothing behind the deadline of two minutes from its permit, and the sleeps that
  -- it asks for are at most the minimum interval of requests and three minutes together.
  pub send_streaming_request_finishes :
      (c : Arrival) (last : ℕ) (reply : ℕ → Reply) (elapsed : ℕ) (m : Map RateLimitState)
      → let (actions, end) =
          (send_streaming_request env codecs client model c last reply elapsed m).1 in
        (in_fuel end ≡ true)
        × (posts actions ≤ 2 * (client.max_retries + 1) + 5)
        × (waits actions ≤ client.min_request_interval + 180_000)
        × (on_time actions ≡ true)
  unfolding send_streaming_request
  send_streaming_request_finishes c last reply elapsed m =
      permitted-Within (acquire_request_permit client c last).1 (sleep_of client c last)
        client.min_request_interval (2 * (client.max_retries + 1) + 5) 180_000
        (stream_endpoints env codecs client model reply (start elapsed m)) (sleep_of_le c last)
        (stream_endpoints_finishes env codecs client model reply elapsed m)

  -- An answer of `send_request` is what the body of a success decodes to, without an error in it,
  -- and that success is the reply to the last request it posted.
  pub send_request-answer :
      (c : Arrival) (last : ℕ) (reply : ℕ → Option Reply) (elapsed : ℕ) (m : Map RateLimitState)
      (a : GenerateContentResponse codecs.Json)
      → let (actions, end) = (send_request env codecs client model c last reply elapsed m).1 in
        end ≡ End.answer a
        → (k : ℕ) × (posts actions ≡ k + 1) × IsAnswer env codecs client model (reply k) a
  unfolding send_request
  send_request-answer c last reply elapsed m a h =
      let (e, same) =
        permitted-answer (acquire_request_permit client c last).1 (sleep_of client c last)
          (request_endpoints env codecs client model reply (start elapsed m)) a h in
      let (k, p, answer) = request_endpoints-answer env codecs client model reply elapsed m a e in
      (k, rw same p, answer)

  -- If the semaphore is open, the first `n` replies are short refusals and the next one is an
  -- answer, `n` is at most the number of retries, and the rounds take no more than `t` each besides
  -- their sleeps, so that two minutes are enough, then `send_request` returns that answer, after
  -- `n + 1` requests.
  pub send_request_perseveres :
      (c : Arrival) (last : ℕ) (reply : ℕ → Option Reply) (a : GenerateContentResponse codecs.Json)
      (t n : ℕ) (m : Map RateLimitState)
      → c.closed ≡ false
      → ((i : ℕ) → env.took i ≤ t)
      → ((i : ℕ) → i < n → IsShortRefusal env codecs client model (reply i))
      → IsAnswer env codecs client model (reply n) a
      → n ≤ client.max_retries
      → n * (t + 1000) ≤ 120_000
      → let (actions, end) = (send_request env codecs client model c last reply 0 m).1 in
        (end ≡ End.answer a) × (posts actions ≡ n + 1)
  unfolding send_request acquire_request_permit
  send_request_perseveres c last reply a t n m passes k r g l d =
      let run = request_endpoints env codecs client model reply (start 0 m) in
      let h = request_endpoints_perseveres env codecs client model reply a t n m k r g l d in
      rw passes (h.0, rw ((after_sleep_lem (sleep_of client c last) run.0).0) h.1)

  -- The reset time of an exhausted quota that `send_request` reports is a duration as
  -- `format_duration` prints it, or that it is unknown, and never a date.
  pub send_request-IsTold :
      (c : Arrival) (last : ℕ) (reply : ℕ → Option Reply) (elapsed : ℕ) (m : Map RateLimitState)
      (named reset_time : Bytes)
      → (send_request env codecs client model c last reply elapsed m).1.1
        ≡ End.error (Error.api (ApiError.quota_exhausted named reset_time))
      → IsTold reset_time
  unfolding send_request
  send_request-IsTold c last reply elapsed m named reset_time e =
      request_endpoints-IsTold env codecs client model reply elapsed m named reset_time (
        permitted-quota c client last (sleep_of client c last)
          (request_endpoints env codecs client model reply (start elapsed m)) named reset_time e)
