-- ===== src/CloudCode/Answers.antt =====
-- Where an answer comes from: the last request posted.
use agcp.Prelude.{
  if_rule, if◌then◌else◌, ◌==◌, ◌&&◌, ltb, inl, inr, ℕ, ◌+◌, ◌≡◌, refl, List, [], arith, some, none,
  true, Option, ◌⊎◌,
}
use agcp.Prelude.Text.{Bytes}
use mathlib.Core.Path.{subst}
use agcp.Prelude.Map.{Map}
use agcp.RateLimit.Attempts.{RateLimitState}
use agcp.Error.{Error}
use agcp.Format.Google.{GoogleError, GenerateContentResponse}
use agcp.RateLimit.Duration.{Outcome, panic, ok, ◌and_then◌}
use agcp.RateLimit.Reset.{parse_reset_time}
use agcp.RateLimit.Backoff.{first_retry_delay_ms}
use agcp.CloudCode.Rounds.{
  Env, State, Action, wait_capacity, max_capacity_retries, End, endpoints, over_endpoints, start,
  all_failed, rate_limited, wait_for_reset, by_reset,
}
use agcp.CloudCode.Send.{
  Client, Codecs, Reply, Body, Result, attempt, attempt_stream, request_endpoints, stream_endpoints,
  on_error, on_response, on_google_error, on_status, give_status, unless_error, take_chars,
  on_reply, by_result, decoded, within, post, is_success, body_text,
}
use agcp.CloudCode.Status.{map_http_error}
use agcp.RateLimit.Reason.{is_model_capacity_exhausted}
use agcp.CloudCode.Rations.{posts}
use agcp.CloudCode.Answered.{Sound, Answered, over_endpoints-Answered}

-- What a refusal leads to is no answer.
module _ (env : Env) (codecs : Codecs) (client : Client) (model : Bytes) where
  module _ {A : Type 0} (P : ℕ → A → Type 0) (n : ℕ) where
    wait_for_reset-Sound :
        (text : Bytes) (wait_ms : ℕ) (reset_time : Bytes) (s : State)
        → Sound P n (wait_for_reset env model text wait_ms reset_time s)
    unfolding wait_for_reset
    wait_for_reset-Sound text wait_ms reset_time s = ground arith

    by_reset-Sound :
        (text : Bytes) (s : State) (o : Outcome (ℕ × Bytes))
        → Sound P n (by_reset env model text s o)
    unfolding by_reset
    by_reset-Sound text s panic = tt
    by_reset-Sound text s (ok (wait_ms, reset_time)) =
        ground (arith, wait_for_reset-Sound text wait_ms reset_time s)

    rate_limited-Sound : (text : Bytes) (s : State) → Sound P n (rate_limited env model text s)
    unfolding rate_limited
    rate_limited-Sound text s =
        by_reset-Sound text s (parse_reset_time env.reset text first_retry_delay_ms)

    on_google_error-Sound :
        (e : GoogleError) (s : State) → Sound P n (on_google_error env codecs client model e s)
    unfolding on_google_error
    on_google_error-Sound e s =
        ground (arith, rate_limited-Sound e.message (record s { retry_count = s.retry_count + 1 }))

    on_error-Sound : (e : Error) (s : State) → Sound P n (on_error env codecs client model e s)
    unfolding on_error
    on_error-Sound e s = ground arith

    give_status-Sound :
        (o : Outcome Error) (s : State) → Sound P n (give_status env codecs client model o s)
    give_status-Sound panic s = tt
    give_status-Sound (ok e) s = tt

    on_status-Sound :
        (status : ℕ) (body : Bytes) (s : State)
        → Sound P n (on_status env codecs client model status body s)
    unfolding on_status
    on_status-Sound status body s =
        let counted = record s { retry_count = s.retry_count + 1 } in
        let e = map_http_error env.reset status (take_chars 500 body) (some model) in
        let low = is_model_capacity_exhausted env.reset.to_lowercase body in
        let given = give_status env codecs client model e s in
        let again = wait_capacity env model s in
        let retries = ltb s.capacity_retry_count max_capacity_retries in
        if_rule (Sound P n) (status == 429 && ltb s.retry_count client.max_retries)
          (rate_limited env model body counted)
          (if status == 503 && (low && retries) then again else given)
          (λ h. rate_limited-Sound body counted)
          (λ h.
            if_rule (Sound P n) (status == 503 && (low && retries)) again given (λ k. tt)
              (λ k. give_status-Sound e s))

  -- The reply is a success whose whole body decodes to the response, without an error in it.
  abbrev pub IsAnswer : Option Reply → GenerateContentResponse codecs.Json → Type 0
  IsAnswer r a =
      (status : ℕ) × (bytes : Bytes) × (r ≡ some (Reply.response status (Body.whole bytes)))
      × (is_success status ≡ true)
      × (codecs.from_slice bytes ≡ inl a)
      × (a.error ≡ none)

  abbrev pub IsStream : Reply → ℕ × Body → Type 0
  IsStream r (status, body) = (r ≡ Reply.response status body) × (is_success status ≡ true)

  module _ (reply : ℕ → Option Reply) where
    abbrev P : ℕ → GenerateContentResponse codecs.Json → Type 0
    P k a = IsAnswer (reply k) a

    unless_error-Sound :
        (n : ℕ) (o : Option GoogleError) (r : GenerateContentResponse codecs.Json) (s : State)
        → r.error ≡ o
        → (r.error ≡ none → IsAnswer (reply n) r)
        → Sound P n (unless_error env codecs client model o r s)
    unfolding unless_error
    unless_error-Sound n none r s e h = h e
    unless_error-Sound n (some g) r s e h = on_google_error-Sound P n g s

    decoded-Sound :
        (n status : ℕ) (bytes : Bytes) (s : State) (o : GenerateContentResponse codecs.Json ⊎ Bytes)
        → codecs.from_slice bytes ≡ o
        → reply n ≡ some (Reply.response status (Body.whole bytes))
        → is_success status ≡ true
        → Sound P n (decoded env codecs client model o s)
    unfolding on_response
    decoded-Sound n status bytes s (inl r) d e h =
        unless_error-Sound n r.error r s refl (λ none_in. (status, bytes, e, h, d, none_in))
    decoded-Sound n status bytes s (inr text) d e h = tt

    bad-Sound :
        (n : ℕ) (o : Outcome Error) (s : State)
        → Sound P n (by_result env codecs client model (o and_then λ e. ok (Result.bad e)) s)
    unfolding by_result
    bad-Sound n panic s = tt
    bad-Sound n (ok e) s = on_error-Sound P n e s

    within-Sound :
        (n : ℕ) (r : Option Reply) (s : State)
        → reply n ≡ r
        → Sound P n (within env codecs client model r s)
    unfolding post by_result
    within-Sound n none s e = tt
    within-Sound n (some (Reply.failed text)) s e = on_error-Sound P n (Error.http text) s
    within-Sound n (some (Reply.response status (Body.whole bytes))) s e =
        if_rule (λ o. Sound P n (by_result env codecs client model o s)) (is_success status) _ _
          (λ h. decoded-Sound n status bytes s (codecs.from_slice bytes) refl e h)
          (λ h. bad-Sound n (map_http_error env.reset status (codecs.lossy bytes) none) s)
    within-Sound n (some (Reply.response status (Body.broken text))) s e =
        if_rule (λ o. Sound P n (by_result env codecs client model o s)) (is_success status) _ _
          (λ h. on_error-Sound P n (Error.http text) s)
          (λ h. bad-Sound n (map_http_error env.reset status (codecs.lossy []) none) s)

  on_reply-Sound :
      (reply : ℕ → Reply) (n : ℕ) (r : Reply) (s : State)
      → reply n ≡ r
      → Sound (λ k. IsStream (reply k)) n (on_reply env codecs client model r s)
  unfolding on_reply
  on_reply-Sound reply n (Reply.failed text) s e = tt
  on_reply-Sound reply n (Reply.response status body) s e =
      if_rule (Sound (λ k. IsStream (reply k)) n) (is_success status) _ _ (λ h. (e, h))
        (λ h.
          on_status-Sound (λ k. IsStream (reply k)) n status
            (body_text env codecs client model body) s)

  all_failed-answer :
      {A : Type 0} (P : ℕ → A → Type 0) (r : List Action × End A) (a : A)
      → Answered P 0 r
      → all_failed r.1 ≡ End.answer a
      → (k : ℕ) × (posts r.0 ≡ k + 1) × P k a
  all_failed-answer P (actions, End.answer b) a (k, e, p) h =
      (k, omega arith, subst (P k) (ground arith) p)
  all_failed-answer P (actions, End.broke s) a _ h = absurd (ground arith)
  all_failed-answer P (actions, End.error e) a _ h = absurd (ground arith)
  all_failed-answer P (actions, End.panicked) a _ h = absurd (ground arith)
  all_failed-answer P (actions, End.out_of_fuel) a _ h = absurd (ground arith)

  -- An answer of `request_endpoints` is what the body of a success decodes to, without an error in
  -- it, and that success is the reply to the last request it posted.
  pub request_endpoints-answer :
      (reply : ℕ → Option Reply) (elapsed : ℕ) (m : Map RateLimitState)
      (a : GenerateContentResponse codecs.Json)
      → let (actions, end) = request_endpoints env codecs client model reply (start elapsed m) in
        end ≡ End.answer a → (k : ℕ) × (posts actions ≡ k + 1) × IsAnswer (reply k) a
  unfolding request_endpoints attempt
  request_endpoints-answer reply elapsed m a =
      all_failed-answer (P reply)
        (over_endpoints env model (attempt env codecs client model reply) (client.max_retries + 1)
          endpoints (start elapsed m))
        a
        (over_endpoints-Answered (P reply) env model (attempt env codecs client model reply)
          (λ s. within-Sound reply s.sent (reply s.sent) s refl) (client.max_retries + 1) endpoints
          (start elapsed m))

  -- A response that `stream_endpoints` returns has the status of a success, and is the reply
  -- to the last request it posted.
  pub stream_endpoints-answer :
      (reply : ℕ → Reply) (elapsed : ℕ) (m : Map RateLimitState) (a : ℕ × Body)
      → let (actions, end) = stream_endpoints env codecs client model reply (start elapsed m) in
        end ≡ End.answer a → (k : ℕ) × (posts actions ≡ k + 1) × IsStream (reply k) a
  unfolding stream_endpoints attempt_stream
  stream_endpoints-answer reply elapsed m a =
      all_failed-answer (λ k. IsStream (reply k))
        (over_endpoints env model (attempt_stream env codecs client model reply)
          (client.max_retries + max_capacity_retries + 1) endpoints (start elapsed m))
        a
        (over_endpoints-Answered (λ k. IsStream (reply k)) env model
          (attempt_stream env codecs client model reply)
          (λ s. on_reply-Sound reply s.sent (reply s.sent) s refl)
          (client.max_retries + max_capacity_retries + 1) endpoints (start elapsed m))
