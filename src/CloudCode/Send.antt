-- ===== src/CloudCode/Send.antt =====
-- One attempt of `send_request` and of `send_streaming_request`, `post`, and the rest of both calls
-- behind the permit: the loops over the endpoints.
use agcp.Prelude.{
  ℕ, zero, suc, ◌+◌, ◌-◌, Bool, true, false, ◌&&◌, Option, none, some, List, [], ◌∷◌, ◌++◌, ◌⊎◌,
  inl, inr, ltb, leb, ◌==◌, if◌then◌else◌, min,
}
use agcp.Prelude.Text.{Bytes, codes}
use agcp.Error.{Error, ApiError}
use agcp.Format.Google.{GenerateContentResponse, GoogleError}
use agcp.RateLimit.Attempts.{RateLimitBackoff, clear_rate_limit_state}
use agcp.RateLimit.Duration.{Outcome, panic, ok, ◌and_then◌}
use agcp.RateLimit.Reason.{is_model_capacity_exhausted}
use agcp.CloudCode.Status.{map_http_error, map_google_error}
use agcp.CloudCode.Rounds.{
  Env, State, Round, Action, End, endpoints, max_wait_before_error_ms, max_capacity_retries,
  backoff_now, rate_limited, wait_capacity, over_endpoints, all_failed,
}

-- A body, or the text of the error that it ended in.
pub data Body : Type 0 where
  whole broken : Bytes → Body

-- What `hyper` gives for one request: `post_raw`.
pub data Reply : Type 0 where
  failed : Bytes → Reply
  response : (status : ℕ) (body : Body) → Reply

pub data Result (A : Type 0) : Type 0 where
  good : A → Result A
  bad : Error → Result A

abbrev pub is_success : ℕ → Bool
is_success status = leb 200 status && ltb status 300

-- The bytes, or none of them.
abbrev or_default : Body → Bytes
or_default (Body.whole bytes) = bytes
or_default (Body.broken text) = []

-- The first characters of a text: a byte from 128 to 191 goes on with one.
unfoldable pub take_chars : ℕ → Bytes → Bytes
take_chars n [] = []
take_chars zero (b ∷ s) = if leb 128 b && ltb b 192 then b ∷ take_chars zero s else []
take_chars (suc n) (b ∷ s) =
    if leb 128 b && ltb b 192 then b ∷ take_chars (suc n) s else b ∷ take_chars n s

pub record Client : Type 0 where
  pub api_timeout : ℕ
  pub max_retries : ℕ
  pub min_request_interval : ℕ

abbrev returns_at_once : Error → Bool
returns_at_once (Error.auth _) = true
returns_at_once (Error.api (ApiError.invalid_request _)) = true
returns_at_once _ = false

abbrev is_rate_limited : Error → Bool
is_rate_limited (Error.api (ApiError.rate_limited _)) = true
is_rate_limited _ = false

abbrev pub give_next : {A : Type 0} → Error → State → Round A
give_next e s = Round.next_endpoint (record s { last_error = some e })

-- The decoders. `from_slice` gives the text of its error, `lossy` is `String::from_utf8_lossy`.
pub record Codecs : Type 1 where
  pub Json : Type 0
  pub from_slice : Bytes → GenerateContentResponse Json ⊎ Bytes
  pub lossy : Bytes → Bytes
  pub from_utf8 : Bytes → Option Bytes

module _ (env : Env) (codecs : Codecs) (client : Client) (model : Bytes) where
  unfoldable pub post : Reply → Outcome (Result Bytes)
  unfolding map_http_error
  post (Reply.failed text) = ok (Result.bad (Error.http text))
  post (Reply.response status body) =
      if is_success status
      then elim body [
        | Body.whole bytes ↦ ok (Result.good bytes)
        | Body.broken text ↦ ok (Result.bad (Error.http text))
      ]
      else map_http_error env.reset status (codecs.lossy (or_default body)) none and_then λ e.
          ok (Result.bad e)

  -- A response of Google that holds an error.
  unfoldable pub on_google_error : {A : Type 0} → GoogleError → State → Round A
  unfolding rate_limited map_google_error
  on_google_error error s =
      if error.code == 429 && ltb s.retry_count client.max_retries
      then rate_limited env model error.message (record s { retry_count = s.retry_count + 1 })
      else let e = map_google_error error.code error.message in
        if returns_at_once e then Round.fail s e else give_next e s

  unfoldable pub unless_error :
      Option GoogleError
      → GenerateContentResponse codecs.Json
      → State
      → Round (GenerateContentResponse codecs.Json)
  unfolding on_google_error clear_rate_limit_state
  unless_error (some error) r s = on_google_error error s
  unless_error none r s =
      Round.done (record s { state_map = clear_rate_limit_state model s.state_map }) r

  unfoldable pub on_response :
      GenerateContentResponse codecs.Json → State → Round (GenerateContentResponse codecs.Json)
  unfolding unless_error
  on_response r s = unless_error r.error r s

  abbrev wait_backoff : {A : Type 0} → Error → State × RateLimitBackoff → Round A
  wait_backoff e (s, backoff) =
      let wait = min backoff.delay_ms (max_wait_before_error_ms - s.elapsed) in
      if ltb 0 wait then Round.again wait s else give_next e s

  -- A failed post.
  unfoldable pub on_error : {A : Type 0} → Error → State → Round A
  unfolding backoff_now
  on_error e s =
      if is_rate_limited e && ltb s.retry_count client.max_retries
      then wait_backoff e
          (backoff_now env model none (record s { retry_count = s.retry_count + 1 }))
      else give_next e s

  abbrev pub decoded :
      GenerateContentResponse codecs.Json ⊎ Bytes
      → State
      → Round (GenerateContentResponse codecs.Json)
  decoded (inl r) s = on_response r s
  decoded (inr text) s = Round.fail s (Error.http (codes "Invalid response JSON: " ++ text))

  unfoldable pub by_result :
      Outcome (Result Bytes) → State → Round (GenerateContentResponse codecs.Json)
  unfolding on_response on_error
  by_result panic s = Round.panics
  by_result (ok (Result.good bytes)) s = decoded (codecs.from_slice bytes) s
  by_result (ok (Result.bad e)) s = on_error e s

  -- A request without a reply has timed out.
  abbrev pub within : Option Reply → State → Round (GenerateContentResponse codecs.Json)
  within none s = give_next (Error.timeout client.api_timeout) s
  within (some r) s = by_result (post r) s

  unfoldable pub attempt : (ℕ → Option Reply) → State → Round (GenerateContentResponse codecs.Json)
  unfolding post by_result
  attempt reply s = within (reply s.sent) s

  unfoldable pub request_endpoints :
      (ℕ → Option Reply) → State → List Action × End (GenerateContentResponse codecs.Json)
  unfolding attempt over_endpoints
  request_endpoints reply s =
      let (actions, end) =
        over_endpoints env model (attempt reply) (client.max_retries + 1) endpoints s in
      (actions, all_failed end)

  -- A status that is not a success, behind the retries.
  abbrev pub give_status : {A : Type 0} → Outcome Error → State → Round A
  give_status panic s = Round.panics
  give_status (ok e) s = give_next e s

  unfoldable pub on_status : {A : Type 0} → ℕ → Bytes → State → Round A
  unfolding rate_limited map_http_error is_model_capacity_exhausted take_chars
  on_status status error_body s =
      if status == 429 && ltb s.retry_count client.max_retries
      then rate_limited env model error_body (record s { retry_count = s.retry_count + 1 })
      else if status == 503
          && (is_model_capacity_exhausted env.reset.to_lowercase error_body
              && ltb s.capacity_retry_count max_capacity_retries)
      then wait_capacity env model s
      else give_status (map_http_error env.reset status (take_chars 500 error_body) (some model)) s

  abbrev or_nothing : Option Bytes → Bytes
  or_nothing none = []
  or_nothing (some text) = text

  abbrev pub body_text : Body → Bytes
  body_text (Body.whole bytes) = or_nothing (codecs.from_utf8 bytes)
  body_text (Body.broken text) = []

  -- There is no timeout on this path: every request is taken to have a reply.
  unfoldable pub on_reply : Reply → State → Round (ℕ × Body)
  unfolding on_status clear_rate_limit_state
  on_reply (Reply.failed text) s = give_next (Error.http text) s
  on_reply (Reply.response status body) s =
      if is_success status
      then Round.done (record s { state_map = clear_rate_limit_state model s.state_map })
          (status, body)
      else on_status status (body_text body) s

  unfoldable pub attempt_stream : (ℕ → Reply) → State → Round (ℕ × Body)
  unfolding on_reply
  attempt_stream reply s = on_reply (reply s.sent) s

  unfoldable pub stream_endpoints : (ℕ → Reply) → State → List Action × End (ℕ × Body)
  unfolding attempt_stream over_endpoints
  stream_endpoints reply s =
      let (actions, end) =
        over_endpoints env model (attempt_stream reply)
          (client.max_retries + max_capacity_retries + 1) endpoints s in
      (actions, all_failed end)
