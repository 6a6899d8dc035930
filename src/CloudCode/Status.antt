-- ===== src/CloudCode/Status.antt =====
-- The errors behind a status of HTTP and behind an error code of Google.
use agcp.Prelude.{ℕ, ◌*◌, ◌%◌, ◌^◌, ◌&&◌, ◌||◌, Option, none, some, ◌++◌, leb, ◌==◌, if◌then◌else◌}
use agcp.Prelude.Text.{Bytes, codes, contains, to_ascii_lowercase}
use agcp.Error.{Error, AuthError, ApiError}
use agcp.RateLimit.Duration.{Outcome, ok, ◌and_then◌, to_string}
use agcp.RateLimit.Reset.{ResetExternals, parse_reset_time}

abbrev pub gemini_disabled_error_marker : Bytes
gemini_disabled_error_marker = codes "gemini has been disabled in this account"

abbrev pub gemini_disabled_warning : Bytes
gemini_disabled_warning =
    codes
      "Gemini has been disabled in this Google account for a Terms of Service violation. Requests cannot continue until access is restored. Contact Google Cloud Support or email gemini-code-assist-user-feedback@google.com."

abbrev http_text : ℕ → Bytes → Bytes
http_text status message = codes "HTTP " ++ (to_string status ++ (codes ": " ++ message))

module _ (ext : ResetExternals) where
  abbrev refused : Bytes → Option Bytes → Outcome Error
  refused message none = ok (Error.api (ApiError.rate_limited 60_000))
  refused message (some model) = parse_reset_time ext message 60_000 and_then λ reset.
      ok (Error.api (ApiError.quota_exhausted model reset.1))

  unfoldable pub map_http_error : ℕ → Bytes → Option Bytes → Outcome Error
  unfolding parse_reset_time
  map_http_error status message model =
      if status == 401
      then ok (Error.auth AuthError.token_expired)
      else if status == 429
      then refused message model
      else if status == 400
      then ok (Error.api (ApiError.invalid_request message))
      else if status == 413
      then ok (Error.api (ApiError.request_too_large 0 (10 * 1024 * 1024)))
      else if status == 403 && contains (to_ascii_lowercase message) gemini_disabled_error_marker
      then ok (Error.api (ApiError.server_error status gemini_disabled_warning))
      else if leb 500 status && leb status 599
      then ok (Error.api (ApiError.server_error status message))
      else ok (Error.http (http_text status message))

-- `code` is the 32 bits of an `i32`, and `code as u16` the low 16 of them.
unfoldable pub map_google_error : ℕ → Bytes → Error
map_google_error code message =
    if code == 401
    then Error.auth AuthError.token_expired
    else if code == 429
    then if contains message (codes "RESOURCE_EXHAUSTED") || contains message (codes "quota")
      then Error.api (ApiError.quota_exhausted (codes "unknown") (codes "unknown"))
      else Error.api (ApiError.rate_limited 60_000)
    else if code == 400
    then Error.api (ApiError.invalid_request message)
    else if code == 503 && contains message (codes "capacity")
    then Error.api ApiError.capacity_exhausted
    else Error.api (ApiError.server_error (code % 2 ^ 16) message)
