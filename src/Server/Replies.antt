-- ===== src/Server/Replies.antt =====
-- `error_to_response`: what the client is told of an error. The suggestion is added to its text.
-- `debug` prints a duration as Rust's `{:?}` does.
use agcp.Prelude.{ℕ, ◌&&◌, Option, none, some, ◌++◌, ltb, leb, if◌then◌else◌}
use agcp.Prelude.Text.{Bytes, codes}
use agcp.Error.{Error, AuthError, ApiError, suggestion}
use agcp.RateLimit.Duration.{to_string}

pub record Reply : Type 0 where
  pub status : ℕ
  pub error_type : Bytes
  pub message : Bytes

abbrev reply : ℕ → Bytes → Bytes → Reply
reply status error_type message = record {
  status = status;
  error_type = error_type;
  message = message;
}

-- `StatusCode::from_u16`, or 500 for what is no status.
abbrev pub status_or_500 : ℕ → ℕ
status_or_500 status = if leb 100 status && ltb status 1000 then status else 500

abbrev with_suggestion : Option Bytes → Reply → Reply
with_suggestion none r = r
with_suggestion (some s) r = record r { message = r.message ++ (codes ". " ++ s) }

module _ (debug : ℕ → Bytes) where
  unfoldable pub plain_reply : Error → Reply
  plain_reply (Error.auth AuthError.token_expired) =
      reply 401 (codes "authentication_error") (codes "Token expired")
  plain_reply (Error.auth (AuthError.refresh_failed text)) =
      reply 401 (codes "authentication_error") (codes "token refresh failed: " ++ text)
  plain_reply (Error.auth (AuthError.oauth_failed text)) =
      reply 401 (codes "authentication_error") (codes "OAuth flow failed: " ++ text)
  plain_reply (Error.api (ApiError.rate_limited retry_after)) =
      reply 429 (codes "rate_limit_error") (codes "Rate limited. Retry after " ++ debug retry_after)
  plain_reply (Error.api (ApiError.quota_exhausted model reset_time)) =
      reply 429 (codes "invalid_request_error") (
        codes "You have exhausted your capacity on "
        ++ (model ++ (codes ". Quota will reset after " ++ (reset_time ++ codes "."))))
  plain_reply (Error.api (ApiError.invalid_request message)) =
      reply 400 (codes "invalid_request_error") message
  plain_reply (Error.api (ApiError.server_error status message)) =
      reply (status_or_500 status) (codes "api_error") message
  plain_reply (Error.api ApiError.capacity_exhausted) =
      reply 503 (codes "overloaded_error") (codes "Model capacity exhausted")
  plain_reply (Error.api (ApiError.request_too_large size max)) =
      reply 413 (codes "invalid_request_error") (
        codes "Request body too large: "
        ++ (to_string size ++ (codes " bytes (max: " ++ (to_string max ++ codes " bytes)"))))
  plain_reply (Error.io text) = reply 500 (codes "api_error") text
  plain_reply (Error.json text) = reply 400 (codes "invalid_request_error") text
  plain_reply (Error.http text) = reply 502 (codes "api_error") text
  plain_reply (Error.timeout d) =
      reply 504 (codes "timeout_error") (codes "Request timed out after " ++ debug d)

  unfoldable pub error_to_response : Error → Reply
  unfolding plain_reply suggestion
  error_to_response e = with_suggestion (suggestion e) (plain_reply e)
