-- ===== src/CloudCode/Told.antt =====
-- What the errors of `request_endpoints` tell of the time of a reset: a duration in hours, minutes
-- and seconds, or that it is unknown.
use agcp.Prelude.{
  ℕ, zero, suc, ◌+◌, ◌≡◌, refl, List, [], ◌∷◌, arith, some, none, Option, ◌⊎◌, inl, inr, ltb,
  Bool-cases,
}
use agcp.Prelude.Text.{Bytes, codes}
use mathlib.Core.Path.{subst}
use agcp.Prelude.Map.{Map}
use agcp.RateLimit.Attempts.{RateLimitState}
use agcp.Error.{Error, ApiError}
use agcp.Format.Google.{GoogleError, GenerateContentResponse}
use agcp.RateLimit.Duration.{Outcome, panic, ok, format_duration}
use agcp.RateLimit.Reset.{parse_reset_time, parse_reset_time_bounds}
use agcp.RateLimit.Backoff.{first_retry_delay_ms}
use agcp.CloudCode.Status.{map_google_error, map_http_error}
use agcp.CloudCode.Rounds.{
  Env, State, Round, Action, End, endpoints, loop, over_endpoints, begin_round, follow, move_on,
  after, start, all_failed, failed_with, give_up, rate_limited, wait_for_reset, by_reset,
  backoff_now,
}
use agcp.CloudCode.Send.{
  Client, Codecs, Reply, Body, Result, attempt, request_endpoints, on_error, on_response,
  on_google_error, unless_error, by_result, decoded, within, post,
}

abbrev pub IsTold : Bytes → Type 0
IsTold reset_time = (reset_time ≡ codes "unknown") ⊎ ((ms : ℕ) × (reset_time ≡ format_duration ms))

abbrev pub Tells : Error → Type 0
Tells (Error.api (ApiError.quota_exhausted model reset_time)) = IsTold reset_time
Tells _ = Unit

abbrev Last : Option Error → Type 0
Last none = Unit
Last (some e) = Tells e

abbrev Left : {A : Type 0} → Round A → Type 0
Left (Round.again wait s) = Last s.last_error
Left (Round.next_endpoint s) = Last s.last_error
Left (Round.done s a) = Unit
Left (Round.fail s e) = Tells e
Left Round.panics = Unit

abbrev Ended : {A : Type 0} → End A → Type 0
Ended (End.broke s) = Last s.last_error
Ended (End.answer a) = Unit
Ended (End.error e) = Tells e
Ended End.panicked = Unit
Ended End.out_of_fuel = Unit

give_up-Tells : (model : Bytes) (o : Option Error) → Last o → Tells (give_up model o)
give_up-Tells model none h = inl refl
give_up-Tells model (some e) h = h

failed_with-Tells : (o : Option Error) → Last o → Tells (failed_with o)
failed_with-Tells none h = tt
failed_with-Tells (some e) h = h

module _ {A : Type 0} (env : Env) (model : Bytes) (attempt : State → Round A)
    (tells : (s : State) → Last s.last_error → Left (attempt s)) where
  follow-Ended :
      (rest : State → List Action × End A) (endpoint : Bytes) (s : State) (r : Round A)
      → Left r
      → ((s' : State) → Last s'.last_error → Ended (rest s').1)
      → Ended (follow env model rest endpoint s r).1
  unfolding follow
  follow-Ended rest endpoint s (Round.again wait s') h more =
      more (after env model s.sent wait s') h
  follow-Ended rest endpoint s (Round.next_endpoint s') h more = h
  follow-Ended rest endpoint s (Round.done s' a) h more = tt
  follow-Ended rest endpoint s (Round.fail s' e) h more = h
  follow-Ended rest endpoint s Round.panics h more = tt

  loop-Ended :
      (fuel : ℕ) (endpoint : Bytes) (s : State)
      → Last s.last_error
      → Ended (loop env model attempt fuel endpoint s).1
  unfolding loop
  loop-Ended zero endpoint s h = tt
  loop-Ended (suc fuel) endpoint s h = elim (Bool-cases (ltb 120_000 s.elapsed)) [
    | inl e ↦ let g = give_up-Tells model s.last_error h in ground (arith, e, g)
    | inr e ↦
        let begun = begin_round env model s in
        let p =
          follow-Ended (loop env model attempt fuel endpoint) endpoint s (attempt begun)
            (tells begun h) (loop-Ended fuel endpoint) in
        ground (arith, p)
  ]

  move_on-Ended :
      (rest : State → List Action × End A) (r : List Action × End A)
      → Ended r.1
      → ((s : State) → Last s.last_error → Ended (rest s).1)
      → Ended (move_on env model rest r).1
  unfolding move_on
  move_on-Ended rest (actions, End.broke s) h more = more s h
  move_on-Ended rest (actions, End.answer _) h more = h
  move_on-Ended rest (actions, End.error _) h more = h
  move_on-Ended rest (actions, End.panicked) h more = tt
  move_on-Ended rest (actions, End.out_of_fuel) h more = tt

  over_endpoints-Ended :
      (fuel : ℕ) (rest : List Bytes) (s : State)
      → Last s.last_error
      → Ended (over_endpoints env model attempt fuel rest s).1
  unfolding over_endpoints
  over_endpoints-Ended fuel [] s h = h
  over_endpoints-Ended fuel (endpoint ∷ rest) s h =
      let s0 = record s { retry_count = 0 } in
      move_on-Ended (over_endpoints env model attempt fuel rest)
        (loop env model attempt fuel endpoint s0) (loop-Ended fuel endpoint s0 h)
        (over_endpoints-Ended fuel rest)

module _ (env : Env) (codecs : Codecs) (client : Client) (model : Bytes) where
  wait_for_reset-Left :
      (A : Type 0) (text : Bytes) (wait_ms : ℕ) (reset_time : Bytes) (s : State)
      → IsTold reset_time
      → Left {A = A} (wait_for_reset env model text wait_ms reset_time s)
  unfolding wait_for_reset
  wait_for_reset-Left A text wait_ms reset_time s h = ground (arith, h)

  by_reset-Left :
      (A : Type 0) (text : Bytes) (s : State) (o : Outcome (ℕ × Bytes))
      → parse_reset_time env.reset text first_retry_delay_ms ≡ o
      → Last s.last_error
      → Left {A = A} (by_reset env model text s o)
  unfolding by_reset
  by_reset-Left A text s panic e h = tt
  by_reset-Left A text s (ok (wait_ms, reset_time)) e h =
      let told : IsTold reset_time = inr (
        wait_ms,
        (parse_reset_time_bounds env.reset text first_retry_delay_ms wait_ms reset_time e).1,
      ) in
      ground (arith, told, h, wait_for_reset-Left A text wait_ms reset_time s told)

  rate_limited-Left :
      (A : Type 0) (text : Bytes) (s : State)
      → Last s.last_error
      → Left {A = A} (rate_limited env model text s)
  unfolding rate_limited
  rate_limited-Left A text s h =
      by_reset-Left A text s (parse_reset_time env.reset text first_retry_delay_ms) refl h

  map_google_error-Tells : (code : ℕ) (message : Bytes) → Tells (map_google_error code message)
  unfolding map_google_error
  map_google_error-Tells code message =
      let unknown : IsTold (codes "unknown") = inl refl in ground (arith, unknown)

  on_google_error-Left :
      (A : Type 0) (e : GoogleError) (s : State)
      → Last s.last_error
      → Left {A = A} (on_google_error env codecs client model e s)
  unfolding on_google_error
  on_google_error-Left A e s h =
      let t = map_google_error-Tells e.code e.message in
      let r = rate_limited-Left A e.message (record s { retry_count = s.retry_count + 1 }) h in
      ground (arith, t, r)

  on_error-Left :
      (A : Type 0) (e : Error) (s : State)
      → Last s.last_error
      → Tells e
      → Left {A = A} (on_error env codecs client model e s)
  unfolding on_error backoff_now
  on_error-Left A e s h t = ground (arith, h, t)

  unless_error-Left :
      (o : Option GoogleError) (r : GenerateContentResponse codecs.Json) (s : State)
      → Last s.last_error
      → Left (unless_error env codecs client model o r s)
  unfolding unless_error
  unless_error-Left none r s h = tt
  unless_error-Left (some e) r s h =
      on_google_error-Left (GenerateContentResponse codecs.Json) e s h

  decoded-Left :
      (r : GenerateContentResponse codecs.Json ⊎ Bytes) (s : State)
      → Last s.last_error
      → Left (decoded env codecs client model r s)
  unfolding on_response
  decoded-Left (inl r) s h = unless_error-Left r.error r s h
  decoded-Left (inr text) s h = tt

  abbrev Posted : Outcome (Result Bytes) → Type 0
  Posted panic = Unit
  Posted (ok (Result.good bytes)) = Unit
  Posted (ok (Result.bad e)) = Tells e

  -- `post` names no model, so that its errors tell nothing.
  post-Posted : (r : Reply) → Posted (post env codecs client model r)
  unfolding post map_http_error
  post-Posted (Reply.failed text) = tt
  post-Posted (Reply.response status (Body.whole bytes)) = ground arith
  post-Posted (Reply.response status (Body.broken text)) = ground arith

  by_result-Left :
      (o : Outcome (Result Bytes)) (s : State)
      → Last s.last_error
      → Posted o
      → Left (by_result env codecs client model o s)
  unfolding by_result
  by_result-Left panic s h p = tt
  by_result-Left (ok (Result.good bytes)) s h p = decoded-Left (codecs.from_slice bytes) s h
  by_result-Left (ok (Result.bad e)) s h p =
      on_error-Left (GenerateContentResponse codecs.Json) e s h p

  within-Left :
      (r : Option Reply) (s : State) → Last s.last_error → Left (within env codecs client model r s)
  within-Left none s h = tt
  within-Left (some r) s h = by_result-Left (post env codecs client model r) s h (post-Posted r)

  all_failed-Ended : {A : Type 0} (end : End A) → Ended end → Ended (all_failed end)
  all_failed-Ended (End.broke s) h = failed_with-Tells s.last_error h
  all_failed-Ended (End.answer a) h = tt
  all_failed-Ended (End.error e) h = h
  all_failed-Ended End.panicked h = tt
  all_failed-Ended End.out_of_fuel h = tt

  request_endpoints-Ended :
      (reply : ℕ → Option Reply) (elapsed : ℕ) (m : Map RateLimitState)
      → Ended (request_endpoints env codecs client model reply (start elapsed m)).1
  unfolding request_endpoints attempt
  request_endpoints-Ended reply elapsed m =
      let s = start elapsed m in
      let fuel = client.max_retries + 1 in
      let one = attempt env codecs client model reply in
      all_failed-Ended (over_endpoints env model one fuel endpoints s).1 (
        over_endpoints-Ended env model one (λ s h. within-Left (reply s.sent) s h) fuel endpoints s
          tt)

  -- The reset time of an exhausted quota that `request_endpoints` reports is a duration as
  -- `format_duration` prints it, or that it is unknown, and never a date.
  pub request_endpoints-IsTold :
      (reply : ℕ → Option Reply) (elapsed : ℕ) (m : Map RateLimitState) (named reset_time : Bytes)
      → (request_endpoints env codecs client model reply (start elapsed m)).1
        ≡ End.error (Error.api (ApiError.quota_exhausted named reset_time))
      → IsTold reset_time
  request_endpoints-IsTold reply elapsed m named reset_time e =
      subst Ended e (request_endpoints-Ended reply elapsed m)
