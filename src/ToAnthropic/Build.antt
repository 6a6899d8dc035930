-- ===== src/ToAnthropic/Build.antt =====
-- `build_response_from_events`. `from_str` reads a JSON value, if the text is one.
use agcp.Prelude.{
  Bool, true, false, ◌&&◌, not, Option, none, some, List, [], ◌∷◌, ◌++◌, if◌then◌else◌,
}
use agcp.Prelude.Text.{Bytes, codes}
use agcp.Format.Anthropic.{
  ContentBlock, ContentDelta, StreamEvent, StopReason, Usage, MessagesResponse, assistant, no_usage,
  message_start, content_block_start, content_block_delta, content_block_stop, message_delta,
}
use agcp.Sse.Parser.{is_empty, or_empty}

-- The local variables of the loop.
pub record Builder (J : Type 0) : Type 0 where
  pub content : List (ContentBlock J)
  pub stop_reason : Option StopReason
  pub usage : Usage
  pub current_text : Bytes
  pub current_thinking : Bytes
  pub current_signature : Bytes
  pub in_text_block : Bool
  pub in_thinking_block : Bool

-- `if signature.is_empty() { None } else { Some(…) }`
abbrev pub non_empty : Bytes → Option Bytes
non_empty s = if is_empty s then none else some s

abbrev or_keep : Option StopReason → Option StopReason → Option StopReason
or_keep none old = old
or_keep (some r) old = some r

module _ {J : Type 0} where
  abbrev pub start : Builder J
  start = record {
    content = [];
    stop_reason = none;
    usage = no_usage;
    current_text = [];
    current_thinking = [];
    current_signature = [];
    in_text_block = false;
    in_thinking_block = false;
  }

  unfoldable pub start_block : ContentBlock J → Builder J → Builder J
  start_block (ContentBlock.text _ _) b = record b { in_text_block = true; current_text = [] }
  start_block (ContentBlock.thinking _ signature) b = record b {
    in_thinking_block = true;
    current_thinking = [];
    current_signature = or_empty signature;
  }
  start_block (ContentBlock.tool_use id name input) b = record b {
    content = b.content ++ ContentBlock.tool_use id name input ∷ [];
  }
  start_block (ContentBlock.image _) b = b
  start_block (ContentBlock.document _ _) b = b
  start_block (ContentBlock.tool_result _ _ _) b = b

  abbrev pub with_input : J → ContentBlock J → ContentBlock J
  with_input v (ContentBlock.tool_use id name _) = ContentBlock.tool_use id name v
  with_input v block = block

  -- `content.last_mut()`, if it is a call
  unfoldable pub set_last_input : J → List (ContentBlock J) → List (ContentBlock J)
  set_last_input v [] = []
  set_last_input v (block ∷ []) = with_input v block ∷ []
  set_last_input v (block ∷ next ∷ blocks) = block ∷ set_last_input v (next ∷ blocks)

  abbrev pub read_input : Option J → List (ContentBlock J) → List (ContentBlock J)
  read_input none content = content
  read_input (some v) content = set_last_input v content

  -- `std::mem::take` leaves an empty string.
  unfoldable pub stop_text : Builder J → Builder J
  stop_text b =
      if b.in_text_block && not (is_empty b.current_text)
      then record b {
        content = b.content ++ ContentBlock.text b.current_text none ∷ [];
        current_text = [];
        in_text_block = false;
      }
      else b

  unfoldable pub stop_thinking : Builder J → Builder J
  stop_thinking b =
      if b.in_thinking_block && not (is_empty b.current_thinking)
      then record b {
        content =
            b.content
            ++ ContentBlock.thinking b.current_thinking (non_empty b.current_signature) ∷ [];
        current_thinking = [];
        current_signature = [];
        in_thinking_block = false;
      }
      else b

  module _ (from_str : Bytes → Option J) where
    unfoldable pub delta : ContentDelta → Builder J → Builder J
    delta (ContentDelta.text t) b =
        if b.in_text_block then record b { current_text = b.current_text ++ t } else b
    delta (ContentDelta.thinking t) b =
        if b.in_thinking_block then record b { current_thinking = b.current_thinking ++ t } else b
    delta (ContentDelta.input_json json) b = record b {
      content = read_input (from_str json) b.content;
    }
    delta (ContentDelta.signature s) b =
        if b.in_thinking_block then record b { current_signature = s } else b

    -- One round of the loop.
    unfoldable pub on_event : StreamEvent J → Builder J → Builder J
    unfolding start_block delta stop_text stop_thinking
    on_event (message_start message) b = record b { usage = message.usage }
    on_event (content_block_start _ block) b = start_block block b
    on_event (content_block_delta _ d) b = delta d b
    on_event (content_block_stop _) b = stop_thinking (stop_text b)
    on_event (message_delta d u) b = record b {
      stop_reason = or_keep d.stop_reason b.stop_reason;
      usage = record b.usage { output_tokens = u.output_tokens };
    }
    on_event StreamEvent.message_stop b = b
    on_event StreamEvent.ping b = b
    on_event (StreamEvent.error _) b = b

    unfoldable pub on_events : List (StreamEvent J) → Builder J → Builder J
    on_events [] b = b
    on_events (e ∷ events) b = on_events events (on_event e b)

    -- The open blocks are put behind the others, the text first.
    unfoldable pub build_response_from_events :
        List (StreamEvent J) → Bytes → Bytes → MessagesResponse J
    unfolding on_events
    build_response_from_events events model request_id =
        let b = stop_thinking (stop_text (on_events events start)) in
        record {
          id = request_id;
          response_type = codes "message";
          role = assistant;
          content = b.content;
          model = model;
          stop_reason = b.stop_reason;
          stop_sequence = none;
          usage = b.usage;
        }
