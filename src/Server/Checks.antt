-- ===== src/Server/Checks.antt =====
-- The checks of a request and of the events of its answer.
use agcp.Prelude.{
  Bool, true, false, ◌||◌, not, Option, none, some, List, [], ◌∷◌, ltb, ◌==◌, if◌then◌else◌,
}
use agcp.Prelude.Text.{Bytes, codes, text_eq, contains}
use agcp.Error.{Error, ApiError}
use agcp.Format.Anthropic.{StreamEvent}
use agcp.Format.Requests.{Message, MessagesRequest}
use agcp.Sse.Parser.{is_empty}

abbrev invalid : Bytes → Option Error
invalid message = some (Error.api (ApiError.invalid_request message))

abbrev no_messages : List Message → Bool
no_messages [] = true
no_messages (m ∷ ms) = false

abbrev out_of_range : {F : Type 0} → (F → Bool) → Option F → Bool
out_of_range in_range none = false
out_of_range in_range (some temp) = not (in_range temp)

-- The error, if there is one. `in_range` is whether a number is between 0 and 2.
unfoldable pub validate_request : {F : Type 0} → (F → Bool) → MessagesRequest F → Option Error
validate_request in_range req =
    if req.max_tokens == 0
    then invalid (codes "max_tokens must be greater than 0")
    else if ltb 200_000 req.max_tokens
    then invalid (codes "max_tokens cannot exceed 200000")
    else if is_empty req.model
    then invalid (codes "model is required")
    else if no_messages req.messages
    then invalid (codes "messages array cannot be empty")
    else if out_of_range in_range req.temperature
    then invalid (codes "temperature must be between 0.0 and 2.0")
    else none

unfoldable pub is_internal_endpoint : Bytes → Bool
is_internal_endpoint path =
    text_eq path (codes "/")
    || (text_eq path (codes "/health")
        || (text_eq path (codes "/stats")
            || (text_eq path (codes "/v1/stats")
                || (text_eq path (codes "/cache/stats")
                    || (text_eq path (codes "/account-limits")
                        || text_eq path (codes "/api/event_logging/batch"))))))

-- The two headers, where they are there and visible ASCII.
abbrev asks_no_cache : Option Bytes → Bool
asks_no_cache none = false
asks_no_cache (some s) = contains s (codes "no-cache") || contains s (codes "no-store")

abbrev is_set : Option Bytes → Bool
is_set none = false
is_set (some s) = text_eq s (codes "true") || text_eq s (codes "1")

unfoldable pub should_bypass_cache : Option Bytes → Option Bytes → Bool
should_bypass_cache cache_control x_no_cache = asks_no_cache cache_control || is_set x_no_cache

abbrev pub bad_gateway : Option Bytes → Option Error
bad_gateway none = none
bad_gateway (some message) = some (Error.api (ApiError.server_error 502 message))

module _ {J : Type 0} where
  -- The message of the first error.
  unfoldable pub first_error : List (StreamEvent J) → Option Bytes
  first_error [] = none
  first_error (StreamEvent.error e ∷ events) = some e.message
  first_error (event ∷ events) = first_error events

  unfoldable pub check_stream_errors : List (StreamEvent J) → Option Error
  unfolding first_error
  check_stream_errors events = bad_gateway (first_error events)

  abbrev pub is_content : StreamEvent J → Bool
  is_content (StreamEvent.content_block_start _ _) = true
  is_content (StreamEvent.content_block_delta _ _) = true
  is_content _ = false
