-- ===== src/CloudCode/Perseveres.antt =====
-- Short refusals are waited for, as long as there are retries and time.
use mathlib.Core.Path.{subst}
use agcp.Prelude.{
  lt→ltb, le→not_ltb, ℕ, zero, suc, ◌+◌, ◌*◌, ◌≤◌, ◌<◌, ◌≡◌, refl, List, [], ◌∷◌, arith, some, true,
  false, Option, inl,
}
use agcp.Prelude.Text.{Bytes, codes}
use agcp.Prelude.Map.{Map}
use agcp.RateLimit.Attempts.{RateLimitState, clear_rate_limit_state}
use agcp.Format.Google.{GenerateContentResponse}
use agcp.RateLimit.Duration.{ok}
use agcp.RateLimit.Reset.{parse_reset_time}
use agcp.RateLimit.Reason.{is_model_capacity_exhausted}
use agcp.RateLimit.Backoff.{first_retry_delay_ms}
use agcp.CloudCode.Rounds.{
  Env, State, Round, Action, End, loop, over_endpoints, begin_round, follow, move_on, after, start,
  rate_limited, by_reset,
}
use agcp.CloudCode.Send.{
  Client, Codecs, Reply, Body, attempt, request_endpoints, on_response, on_google_error,
  unless_error, by_result, post, is_success,
}
use agcp.CloudCode.Rations.{posts}
use agcp.CloudCode.Answers.{IsAnswer}

module _ (env : Env) (codecs : Codecs) (client : Client) (model : Bytes) where
  -- A success of HTTP whose body is an error 429, of less than a second and not for the capacity.
  abbrev pub IsShortRefusal : Option Reply → Type 0
  IsShortRefusal r =
      (status : ℕ) × (bytes : Bytes) × (a : GenerateContentResponse codecs.Json) × (message : Bytes)
      × (google_status : Bytes) × (wait_ms : ℕ) × (reset_time : Bytes) × (r
          ≡ some (Reply.response status (Body.whole bytes)))
      × (is_success status ≡ true)
      × (codecs.from_slice bytes ≡ inl a)
      × (a.error ≡ some (record { code = 429; message = message; status = google_status }))
      × (parse_reset_time env.reset message first_retry_delay_ms ≡ ok (wait_ms, reset_time))
      × (wait_ms < 1000)
      × (is_model_capacity_exhausted env.reset.to_lowercase message ≡ false)

  refused_again :
      (reply : ℕ → Option Reply) (s : State)
      → IsShortRefusal (reply s.sent)
      → s.retry_count < client.max_retries
      → (w : ℕ) × (w < 1000)
        × (attempt env codecs client model reply s
            ≡ Round.again w (record s { retry_count = s.retry_count + 1 }))
  unfolding attempt post by_result on_response unless_error on_google_error rate_limited by_reset
  refused_again reply s (status, bytes, a, message, google_status, w, r, e, h, d, g, p, lt, c) l =
      let more = lt→ltb s.retry_count client.max_retries l in
      let short = lt→ltb w 1000 lt in
      let soon = le→not_ltb 120_000 w (omega arith) in
      (w, lt, simp (e, h, d, g, p, c, more, short, soon))

  answered :
      (reply : ℕ → Option Reply) (s : State) (a : GenerateContentResponse codecs.Json)
      → IsAnswer env codecs client model (reply s.sent) a
      → (s' : State) × (attempt env codecs client model reply s ≡ Round.done s' a)
  unfolding attempt post by_result on_response unless_error
  answered reply s a (status, bytes, e, h, d, g) =
      (record s { state_map = clear_rate_limit_state model s.state_map }, simp (e, h, d, g))

  module _ {A : Type 0} (attempt : State → Round A) (fuel : ℕ) (endpoint : Bytes) (s : State) where
    loop_again :
        (w : ℕ) (s' : State)
        → s.elapsed ≤ 120_000
        → attempt (begin_round env model s) ≡ Round.again w s'
        → let rest = loop env model attempt fuel endpoint (after env model s.sent w s') in
          loop env model attempt (suc fuel) endpoint s
          ≡ (Action.posted endpoint s.elapsed ∷ Action.slept w ∷ rest.0, rest.1)
    unfolding loop follow
    loop_again w s' h e = ground (arith, e)

    loop_done :
        (s' : State) (a : A)
        → s.elapsed ≤ 120_000
        → attempt (begin_round env model s) ≡ Round.done s' a
        → loop env model attempt (suc fuel) endpoint s
          ≡ (Action.posted endpoint s.elapsed ∷ [], End.answer a)
    unfolding loop follow
    loop_done s' a h e = ground (arith, e)

  -- `n` rounds at one endpoint, all but the last of them refused shortly.
  loop_perseveres :
      (reply : ℕ → Option Reply) (a : GenerateContentResponse codecs.Json) (t n fuel : ℕ)
      (endpoint : Bytes) (s : State)
      → ((i : ℕ) → env.took i ≤ t)
      → ((i : ℕ) → i < n → IsShortRefusal (reply (s.sent + i)))
      → IsAnswer env codecs client model (reply (s.sent + n)) a
      → s.retry_count + n ≤ client.max_retries
      → s.elapsed + n * (t + 1000) ≤ 120_000
      → n < fuel
      → let (actions, end) =
          loop env model (attempt env codecs client model reply) fuel endpoint s in
        (end ≡ End.answer a) × (posts actions ≡ n + 1)
  loop_perseveres reply a t n zero endpoint s k r g m d f = absurd (omega arith)
  loop_perseveres reply a t zero (suc fuel) endpoint s k r g m d f =
      let begun = begin_round env model s in
      let (s', e) =
        answered reply begun a
          (subst (λ i. IsAnswer env codecs client model (reply i) a) (omega arith) g) in
      let h =
        loop_done (attempt env codecs client model reply) fuel endpoint s s' a (omega arith) e in
      simp h (refl, refl)
  loop_perseveres reply a t (suc n) (suc fuel) endpoint s k r g m d f =
      let begun = begin_round env model s in
      let refused : IsShortRefusal (reply s.sent) =
        subst (λ i. IsShortRefusal (reply i)) (omega arith) (r 0 (omega arith)) in
      let (w, lt, e) = refused_again reply begun refused (omega arith) in
      let h =
        loop_again (attempt env codecs client model reply) fuel endpoint s w
          (record begun { retry_count = s.retry_count + 1 }) (omega arith) e in
      let next = after env model s.sent w (record begun { retry_count = s.retry_count + 1 }) in
      let rest =
        loop_perseveres reply a t n fuel endpoint next k
          (λ i h. subst (λ j. IsShortRefusal (reply j)) (omega arith) (r (suc i) (omega arith)))
          (subst (λ i. IsAnswer env codecs client model (reply i) a) (omega arith) g) (omega arith)
          (grind (arith, k s.sent)) (omega arith) in
      simp h (rest.0, omega (arith, rest.1))

  move_on-answer :
      {A : Type 0} (rest : State → List Action × End A) (r : List Action × End A) (a : A)
      → r.1 ≡ End.answer a
      → move_on env model rest r ≡ r
  unfolding move_on
  move_on-answer rest (actions, End.answer b) a h = refl
  move_on-answer rest (actions, End.broke s) a h = absurd (ground arith)
  move_on-answer rest (actions, End.error e) a h = refl
  move_on-answer rest (actions, End.panicked) a h = refl
  move_on-answer rest (actions, End.out_of_fuel) a h = refl

  -- If the first `n` replies are short refusals and the next one is an answer, `n` is at most the
  -- number of retries, and the rounds take no more than `t` each besides their sleeps, so that two
  -- minutes are enough, then `request_endpoints` returns that answer, after `n + 1` requests.
  pub request_endpoints_perseveres :
      (reply : ℕ → Option Reply) (a : GenerateContentResponse codecs.Json) (t n : ℕ)
      (m : Map RateLimitState)
      → ((i : ℕ) → env.took i ≤ t)
      → ((i : ℕ) → i < n → IsShortRefusal (reply i))
      → IsAnswer env codecs client model (reply n) a
      → n ≤ client.max_retries
      → n * (t + 1000) ≤ 120_000
      → let (actions, end) = request_endpoints env codecs client model reply (start 0 m) in
        (end ≡ End.answer a) × (posts actions ≡ n + 1)
  unfolding request_endpoints over_endpoints
  request_endpoints_perseveres reply a t n m k r g l d =
      let one = attempt env codecs client model reply in
      let fuel = client.max_retries + 1 in
      let s = start 0 m in
      let h =
        loop_perseveres reply a t n fuel (codes "https://daily-cloudcode-pa.googleapis.com") s k
          (λ i lt. subst (λ j. IsShortRefusal (reply j)) (omega arith) (r i lt))
          (subst (λ j. IsAnswer env codecs client model (reply j) a) (omega arith) g) (omega arith)
          (omega arith) (omega arith) in
      let e =
        move_on-answer
          (over_endpoints env model one fuel (codes "https://cloudcode-pa.googleapis.com" ∷ []))
          (loop env model one fuel (codes "https://daily-cloudcode-pa.googleapis.com") s) a h.0 in
      ground (arith, e, h)
