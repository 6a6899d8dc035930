-- ===== src/Sse/Response.antt =====
-- `process_response`, `finish` and a whole sequence of responses.
use agcp.Prelude.{
  ℕ, suc, ◌-◌, Bool, true, false, ◌&&◌, ◌||◌, not, Option, none, some, List, [], ◌∷◌, ◌++◌, ltb,
  if◌then◌else◌,
}
use agcp.Prelude.Text.{Bytes, codes, text_eq}
use agcp.Format.Anthropic.{
  StreamEvent, StopReason, assistant, message_start, content_block_delta, content_block_stop,
  message_delta, ContentDelta,
}
use agcp.Format.Google.{
  Part, Content, Candidate, PromptFeedback, UsageMetadata, GenerateContentResponse,
}
use agcp.Sse.Parser.{Externals, State, BlockType, is_type, is_empty}
use agcp.Sse.Parts.{Emit, ◌and_then◌, process_part}

unfoldable pub use_metadata : Option UsageMetadata → State → State
use_metadata none s = s
use_metadata (some usage) s = record s {
  parser = record s.parser {
    input_tokens = usage.prompt_token_count;
    output_tokens = usage.candidates_token_count;
    cache_read_tokens = usage.cached_content_token_count;
  };
}

module _ (ext : Externals) where
  open ext use {Json, to_uppercase}

  unfoldable pub first : Option (List (Candidate Json)) → Option (Candidate Json)
  first none = none
  first (some []) = none
  first (some (c ∷ _)) = some c

  unfoldable pub finish_reason_of : Option (Candidate Json) → Option Bytes
  finish_reason_of none = none
  finish_reason_of (some c) = c.finish_reason

  -- The finish reason, if it says that the response was blocked.
  unfoldable pub blocked : Option Bytes → Option Bytes
  blocked none = none
  blocked (some reason) =
      let upper = to_uppercase reason in
      if text_eq upper (codes "SAFETY")
        || text_eq upper (codes "BLOCKED")
        || text_eq upper (codes "RECITATION")
        || text_eq upper (codes "OTHER")
      then some reason
      else none

  unfoldable pub block_reason_of : Option (PromptFeedback Json) → Option Bytes
  block_reason_of none = none
  block_reason_of (some feedback) = feedback.block_reason

  parts_in : Option (Content Json) → List (Part Json)
  parts_in none = []
  parts_in (some content) = content.parts

  unfoldable pub parts_of : Option (Candidate Json) → List (Part Json)
  unfolding parts_in
  parts_of none = []
  parts_of (some c) = parts_in c.content

  unfoldable pub error_event : Bytes → Bytes → StreamEvent Json
  error_event error_type message =
      StreamEvent.error (record { error_type = error_type; message = message })

  start_event : State → StreamEvent Json
  start_event s = message_start (record {
    id = s.message_id;
    message_type = codes "message";
    role = assistant;
    content = [];
    model = s.model;
    stop_reason = none;
    stop_sequence = none;
    usage = record {
      input_tokens = s.input_tokens - s.cache_read_tokens;
      output_tokens = 0;
      cache_read_input_tokens =
          if ltb 0 s.cache_read_tokens then some s.cache_read_tokens else none;
      cache_creation_input_tokens = some 0;
    };
  })

  no_parts : List (Part Json) → Bool
  no_parts [] = true
  no_parts (p ∷ ps) = false

  -- "Emit message_start on first data"
  unfoldable pub start_message : List (Part Json) → State → Emit ext
  unfolding start_event no_parts
  start_message parts s =
      if not s.has_emitted_start && not (no_parts parts)
      then (record s { parser = record s.parser { has_emitted_start = true } }, start_event s ∷ [])
      else (s, [])

  -- The loop over the parts; `clock i` is what the two clocks read at the i-th part.
  unfoldable pub process_parts : (ℕ → ℕ × ℕ) → ℕ → List (Part Json) → State → Emit ext
  unfolding process_part
  process_parts clock i [] s = (s, [])
  process_parts clock i (part ∷ parts) s =
      ◌and_then◌ ext (process_part ext (clock i).0 (clock i).1 part s)
        (process_parts clock (suc i) parts)

  stop_reason_for : Bytes → Bytes
  stop_reason_for finish_reason =
      if text_eq finish_reason (codes "MAX_TOKENS")
      then codes "max_tokens"
      else if text_eq finish_reason (codes "STOP")
      then codes "end_turn"
      else codes "end_turn"

  first_of_reasons : Option Bytes → Option Bytes → Option Bytes
  unfolding stop_reason_for
  first_of_reasons (some r) finish_reason = some r
  first_of_reasons none none = none
  first_of_reasons none (some finish_reason) = some (stop_reason_for finish_reason)

  -- "Check finish reason (only if not already set by tool_use)"
  unfoldable pub set_stop_reason : Option Bytes → State → State
  unfolding first_of_reasons
  set_stop_reason finish_reason s = record s {
    parser = record s.parser { stop_reason = first_of_reasons s.stop_reason finish_reason };
  }

  unfoldable pub convert : (ℕ → ℕ × ℕ) → Option (Candidate Json) → State → Emit ext
  unfolding set_stop_reason finish_reason_of parts_of
  convert clock candidate s =
      ◌and_then◌ ext
        (◌and_then◌ ext (start_message (parts_of candidate) s)
          (process_parts clock 0 (parts_of candidate)))
        (λ s'. (set_stop_reason (finish_reason_of candidate) s', []))

  is_missing : Option (Candidate Json) → Bool
  is_missing none = true
  is_missing (some c) = false

  -- What follows the usage metadata.
  unfoldable pub respond : (ℕ → ℕ × ℕ) → GenerateContentResponse Json → State → Emit ext
  unfolding first finish_reason_of blocked block_reason_of error_event is_missing
  respond clock response s =
      let candidate = first response.candidates in
      elim (blocked (finish_reason_of candidate)) [
        | some reason ↦ (
          s,
          error_event (codes "api_error")
                (codes "Response blocked by Google API (reason: " ++ (reason ++ codes ")"))
              ∷ [],
        )
        | none ↦ elim (block_reason_of response.prompt_feedback) [
          | some reason ↦ (
            s,
            error_event (codes "invalid_request_error")
                  (codes "Prompt blocked by Google API (reason: " ++ (reason ++ codes ")"))
                ∷ [],
          )
          | none ↦
              if is_missing candidate && not s.has_emitted_start
              then (
                s,
                error_event (codes "api_error") (
                      codes "Model "
                      ++ (s.model
                          ++ codes " returned no candidates. The model may be unavailable."))
                    ∷ [],
              )
              else convert clock candidate s
        ]
      ]

  unfoldable pub process_response : (ℕ → ℕ × ℕ) → GenerateContentResponse Json → State → Emit ext
  process_response clock response s =
      respond clock response (use_metadata response.usage_metadata s)

  stop_reason_named : Option Bytes → StopReason
  stop_reason_named none = StopReason.end_turn
  stop_reason_named (some r) =
      if text_eq r (codes "max_tokens")
      then StopReason.max_tokens
      else if text_eq r (codes "tool_use")
      then StopReason.tool_use
      else StopReason.end_turn

  -- The events that close a block which is open at the end.
  close_at_end : Option BlockType → State → List (StreamEvent Json)
  close_at_end none s = []
  close_at_end (some t) s =
      (if is_type (some t) BlockType.thinking && not (is_empty s.current_thinking_signature)
        then content_block_delta s.block_index (ContentDelta.signature s.current_thinking_signature)
          ∷ []
        else [])
      ++ content_block_stop s.block_index ∷ []

  unfoldable pub finish : State → List (StreamEvent Json)
  unfolding close_at_end stop_reason_named
  finish s =
      close_at_end s.current_block_type s
      ++ message_delta
          (record { stop_reason = some (stop_reason_named s.stop_reason); stop_sequence = none })
          (record { output_tokens = s.output_tokens })
        ∷ []

  -- Responses one after another, each with its clock.
  unfoldable pub process_responses :
      List ((ℕ → ℕ × ℕ) × GenerateContentResponse Json) → State → Emit ext
  process_responses [] s = (s, [])
  process_responses ((clock, r) ∷ rs) s =
      ◌and_then◌ ext (process_response clock r s) (process_responses rs)
