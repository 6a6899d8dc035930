-- ===== src/CloudCode/Calls.antt =====
-- `send_request` and `send_streaming_request`: the permit, then the endpoints. The call has come to
-- the front of the client's semaphore and its lock when it begins here; how long that took is not
-- modelled, and the time of the rounds is counted from the permit on, as in the code.
use agcp.Prelude.{ℕ, ◌-◌, Option, List, [], ◌∷◌, ◌==◌, if◌then◌else◌}
use agcp.Prelude.Text.{Bytes}
use agcp.Prelude.Map.{Map}
use agcp.Format.Google.{GenerateContentResponse}
use agcp.RateLimit.Attempts.{RateLimitState}
use agcp.CloudCode.Permit.{Arrival, wait_time, acquire_request_permit}
use agcp.CloudCode.Rounds.{Env, Action, End, start}
use agcp.CloudCode.Send.{Client, Codecs, Reply, Body, Result, request_endpoints, stream_endpoints}

abbrev pub after_sleep : ℕ → List Action → List Action
after_sleep wait actions = if wait == 0 then actions else Action.slept wait ∷ actions

-- `acquire_request_permit().await?` in front of a run; `wait` is the sleep that it asks for.
abbrev pub permitted : {A : Type 0} → Result ℕ → ℕ → List Action × End A → List Action × End A
permitted (Result.bad e) wait run = ([], End.error e)
permitted (Result.good now) wait (actions, end) = (after_sleep wait actions, end)

-- The sleep that the permit asks for.
abbrev pub sleep_of : Client → Arrival → ℕ → ℕ
sleep_of client c last = wait_time client (c.reading - last)

module _ (env : Env) (codecs : Codecs) (client : Client) (model : Bytes) where
  -- `last` is the instant of the permit before, and the new one comes first in the result.
  -- `elapsed` is the time from `start_time` to the first round.
  unfoldable pub send_request :
      Arrival
      → ℕ
      → (ℕ → Option Reply)
      → ℕ
      → Map RateLimitState
      → ℕ × (List Action × End (GenerateContentResponse codecs.Json))
  unfolding acquire_request_permit wait_time request_endpoints
  send_request c last reply elapsed m =
      let (next, permit) = acquire_request_permit client c last in
      (
        next,
        permitted permit (sleep_of client c last)
            (request_endpoints env codecs client model reply (start elapsed m)),
      )

  unfoldable pub send_streaming_request :
      Arrival → ℕ → (ℕ → Reply) → ℕ → Map RateLimitState → ℕ × (List Action × End (ℕ × Body))
  unfolding acquire_request_permit wait_time stream_endpoints
  send_streaming_request c last reply elapsed m =
      let (next, permit) = acquire_request_permit client c last in
      (
        next,
        permitted permit (sleep_of client c last)
            (stream_endpoints env codecs client model reply (start elapsed m)),
      )
