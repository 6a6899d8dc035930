-- ===== src/Server/Thinking.antt =====
-- `handle_thinking_non_streaming_messages`, from the events that `collect_sse_events` gathered: an
-- answer, or an error. `lossy` is `String::from_utf8_lossy`.
use mathlib.Core.Path.{subst}
use agcp.Prelude.{
  [], refl, ℕ, ◌≡◌, Bool, true, false, ◌&&◌, not, Option, none, some, List, ◌++◌, any, arith,
  if◌then◌else◌,
}
use agcp.Prelude.Text.{Bytes, codes}
use agcp.Error.{Error, ApiError}
use agcp.Format.Anthropic.{StreamEvent, MessagesResponse}
use agcp.Format.Google.{GenerateContentResponse}
use agcp.SignatureCache.{Caches}
use agcp.Sse.Parser.{Externals, new, is_empty}
use agcp.Sse.Response.{process_responses, finish}
use agcp.CloudCode.Send.{Result, good, bad, take_chars}
use agcp.Server.Checks.{check_stream_errors, first_error, bad_gateway, is_content}
use agcp.ToAnthropic.Build.{build_response_from_events}
use agcp.ToAnthropic.EndToEnd.{all_items, build_response_from_events-process_responses}
use agcp.ToAnthropic.Calls.{calls_of, received, Matches}
use agcp.ToAnthropic.Held.{blocks_held, items_held}

abbrev empty_response : Bytes → Bytes → Error
empty_response model raw = Error.api (
    ApiError.server_error 502 (
      codes "Model "
      ++ (model
          ++ (codes " returned empty response from Google API. The model may be unavailable. Raw: "
              ++ raw))))

module _ {J : Type 0} (from_str : Bytes → Option J) (lossy : Bytes → Bytes) where
  abbrev unless_failed :
      Option Error → List (StreamEvent J) → Bytes → Bytes → Bytes → Result (MessagesResponse J)
  unless_failed (some e) events body_bytes model request_id = bad e
  unless_failed none events body_bytes model request_id =
      if not (any is_content events) && not (is_empty body_bytes)
      then bad (empty_response model (take_chars 200 (lossy body_bytes)))
      else good (build_response_from_events from_str events model request_id)

  unfoldable pub answer_events :
      List (StreamEvent J) → Bytes → Bytes → Bytes → Result (MessagesResponse J)
  unfolding check_stream_errors take_chars build_response_from_events
  answer_events events body_bytes model request_id =
      unless_failed (check_stream_errors events) events body_bytes model request_id

  built_good :
      {A : Type 0} (b : Bool) (e : Error) (x y : A) → (if b then bad e else good x) ≡ good y → x ≡ y
  built_good true e x y h = absurd (ground arith)
  built_good false e x y h = ground arith

  no_error :
      (o : Option Bytes) (events : List (StreamEvent J)) (body_bytes model request_id : Bytes)
      (answer : MessagesResponse J)
      → unless_failed (bad_gateway o) events body_bytes model request_id ≡ good answer
      → o ≡ none
  no_error none events body_bytes model request_id answer h = refl
  no_error (some message) events body_bytes model request_id answer h = absurd (ground arith)

  built :
      (o : Option Error) (events : List (StreamEvent J)) (body_bytes model request_id : Bytes)
      (answer : MessagesResponse J)
      → unless_failed o events body_bytes model request_id ≡ good answer
      → build_response_from_events from_str events model request_id ≡ answer
  built (some e) events body_bytes model request_id answer h = absurd (ground arith)
  built none events body_bytes model request_id answer h =
      built_good (not (any is_content events) && not (is_empty body_bytes))
        (empty_response model (take_chars 200 (lossy body_bytes)))
        (build_response_from_events from_str events model request_id) answer h

module _ (ext : Externals) where
  -- An answer that the handler gives for a stream that started a message has the text, the
  -- thinking and the calls of all its responses, each whole and in order, each call with what its
  -- arguments read as, where they can be read, for its input, and no error was among its events.
  pub answer_events-process_responses :
      (from_str : Bytes → Option ext.Json) (lossy : Bytes → Bytes) (nanos : ℕ)
      (model request_id body_bytes : Bytes) (caches : Caches)
      (rs : List ((ℕ → ℕ × ℕ) × GenerateContentResponse ext.Json))
      (answer : MessagesResponse ext.Json)
      → (process_responses ext rs (new model nanos caches)).0.has_emitted_start ≡ true
      → let r = process_responses ext rs (new model nanos caches) in
        let events = r.1 ++ finish ext r.0 in
        answer_events from_str lossy events body_bytes model request_id ≡ good answer
        → (blocks_held answer.content ≡ items_held (all_items ext rs))
          × Matches (calls_of answer.content) (received from_str (all_items ext rs) [])
          × (first_error events ≡ none)
  unfolding answer_events check_stream_errors
  answer_events-process_responses from_str lossy nanos model request_id body_bytes caches rs answer
        started h =
      let r = process_responses ext rs (new model nanos caches) in
      let events = r.1 ++ finish ext r.0 in
      let same =
        built from_str lossy (check_stream_errors events) events body_bytes model request_id answer
          h in
      let held =
        subst
          (λ (a : MessagesResponse ext.Json).
            (blocks_held a.content ≡ items_held (all_items ext rs))
            × Matches (calls_of a.content) (received from_str (all_items ext rs) []))
          same
          (build_response_from_events-process_responses ext from_str nanos model request_id caches
            rs started) in
      (
        held.0,
        held.1,
        no_error from_str lossy (first_error events) events body_bytes model request_id answer h,
      )
