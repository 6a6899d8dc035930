-- ===== src/Error.antt =====
-- src/error.rs: the errors that the parts pass on. An error of the operating system or of the JSON
-- library is its text, and a `Duration` is a number of milliseconds.
use agcp.Prelude.{ℕ, Option, none, some}
use agcp.Prelude.Text.{Bytes, codes}

pub data AuthError : Type 0 where
  token_expired : AuthError
  refresh_failed oauth_failed : Bytes → AuthError

pub data ApiError : Type 0 where
  rate_limited : (retry_after : ℕ) → ApiError
  quota_exhausted : (model reset_time : Bytes) → ApiError
  invalid_request : (message : Bytes) → ApiError
  server_error : (status : ℕ) (message : Bytes) → ApiError
  capacity_exhausted : ApiError
  request_too_large : (size max : ℕ) → ApiError

pub data Error : Type 0 where
  auth : AuthError → Error
  api : ApiError → Error
  io json http : Bytes → Error
  timeout : ℕ → Error

unfoldable pub suggestion : Error → Option Bytes
suggestion (Error.auth AuthError.token_expired) = some (codes "Run 'agcp login' to re-authenticate")
suggestion (Error.auth (AuthError.refresh_failed _)) =
    some (codes "Run 'agcp login' to re-authenticate")
suggestion (Error.auth (AuthError.oauth_failed _)) =
    some (codes "Check your internet connection and try again")
suggestion (Error.api (ApiError.quota_exhausted _ _)) =
    some (codes "Wait for quota to reset or try a different model")
suggestion (Error.api ApiError.capacity_exhausted) =
    some (codes "Model is overloaded, try again in a few minutes")
suggestion (Error.api (ApiError.rate_limited _)) = some (codes "Too many requests, slow down")
suggestion (Error.api (ApiError.invalid_request _)) = none
suggestion (Error.api (ApiError.server_error _ _)) = none
suggestion (Error.api (ApiError.request_too_large _ _)) = none
suggestion (Error.timeout _) = some (codes "Check your internet connection or try again")
suggestion (Error.io _) = none
suggestion (Error.json _) = none
suggestion (Error.http _) = none
