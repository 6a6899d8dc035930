-- ===== src/Sse/Parts.antt =====
-- The conversion of one part of a response.
use agcp.Prelude.{
  ℕ, ◌+◌, ◌%◌, ◌^◌, ◌&&◌, not, Option, none, some, List, [], ◌∷◌, ◌++◌, if◌then◌else◌,
}
use agcp.Prelude.Text.{Bytes, codes}
use agcp.Format.Anthropic.{
  ContentBlock, ContentDelta, StreamEvent, content_block_start, content_block_delta,
  content_block_stop,
}
use agcp.Format.Google.{Part, TextPart, ThoughtPart, FunctionCallPart}
use agcp.SignatureCache
use agcp.SignatureCache.{Caches, ModelFamily, claude, min_signature_length}
use agcp.Sse.Parser.{
  Externals, BlockType, State, hex_padded, is_type, is_empty, or_empty, long_enough, family_of,
  enter, set_signature, text, thinking, tool_use,
}

module _ (lib : Externals) where
  open lib use {Json, get, as_str, remove_key, empty_object, to_string}

  abbrev pub Emit : Type 0
  Emit = State × List (StreamEvent Json)

  -- One step after another: the events of both, in order.
  infixl 20 ◌and_then◌
  abbrev pub ◌and_then◌ : Emit → (State → Emit) → Emit
  step and_then f = let (s, events) = step in let (s', more) = f s in (s', events ++ more)

  unfoldable pub close_block : State → Emit
  close_block s = (
    record s { parser = record s.parser { block_index = (s.block_index + 1) % 2 ^ 32 } },
    content_block_stop s.block_index ∷ [],
  )

  close_if : Option BlockType → State → Emit
  close_if none s = (s, [])
  close_if (some prev_type) s = close_block s

  -- "Close previous block if any"
  unfoldable pub close_previous : State → Emit
  unfolding close_if close_block
  close_previous s = close_if s.current_block_type s

  -- "If switching from thinking, emit signature first"
  unfoldable pub emit_signature : State → Emit
  emit_signature s =
      if is_type s.current_block_type thinking && not (is_empty s.current_thinking_signature)
      then (
        set_signature [] s,
        content_block_delta s.block_index (ContentDelta.signature s.current_thinking_signature)
            ∷ [],
      )
      else (s, [])

  unfoldable pub open_thinking : State → Emit
  unfolding close_previous
  open_thinking s =
      if is_type s.current_block_type thinking
      then (s, [])
      else close_previous s and_then λ s'. (
        set_signature [] (enter thinking s'),
        content_block_start s'.block_index (ContentBlock.thinking [] none) ∷ [],
      )

  keep_signature : ℕ → Bytes → State → State
  unfolding family_of
  keep_signature now signature s =
      if long_enough signature
      then record (set_signature signature s) {
        caches = SignatureCache.cache_thinking_signature now signature (family_of s.model) s.caches;
      }
      else s

  unfoldable pub process_thought : ℕ → ThoughtPart → State → Emit
  unfolding open_thinking keep_signature
  process_thought now part s = open_thinking s and_then λ s'.
      let s'' = keep_signature now (or_empty part.thought_signature) s' in
      (
        s'',
        if is_empty part.text
            then []
            else content_block_delta s''.block_index (ContentDelta.thinking part.text) ∷ [],
      )

  unfoldable pub open_text : State → Emit
  unfolding emit_signature close_previous
  open_text s =
      if is_type s.current_block_type text
      then (s, [])
      else emit_signature s and_then close_previous and_then λ s'.
          (enter text s', content_block_start s'.block_index (ContentBlock.text [] none) ∷ [])

  unfoldable pub process_text : TextPart → State → Emit
  unfolding open_text
  process_text part s =
      if is_empty part.text
      then (s, [])
      else open_text s and_then λ s'.
          (s', content_block_delta s'.block_index (ContentDelta.text part.text) ∷ [])

  -- `args.get("id")`, or `toolu_` and the clock in nanoseconds
  tool_id_or : Option Bytes → ℕ → Bytes
  unfolding hex_padded
  tool_id_or none nanos = codes "toolu_" ++ hex_padded 24 nanos
  tool_id_or (some id) nanos = id

  -- `.and_then(|v| v.as_str())`
  abbrev pub str_in : Option Json → Option Bytes
  str_in none = none
  str_in (some v) = as_str v

  unfoldable pub tool_id : FunctionCallPart Json → ℕ → Bytes
  unfolding tool_id_or
  tool_id fc nanos = tool_id_or (str_in (get (codes "id") fc.function_call.args)) nanos

  keep_tool_signature : ℕ → Bytes → Bytes → State → State
  keep_tool_signature now id signature s =
      if long_enough signature
      then record s { caches = SignatureCache.cache_tool_signature now id signature s.caches }
      else s

  -- The events of a function call, behind the block before it.
  unfoldable pub start_tool : ℕ → ℕ → FunctionCallPart Json → State → Emit
  unfolding tool_id keep_tool_signature
  start_tool now nanos fc s =
      let id = tool_id fc nanos in
      let opened = record (enter tool_use s) {
        parser = record (enter tool_use s).parser { stop_reason = some (codes "tool_use") };
      } in
      (
        keep_tool_signature now id (or_empty fc.thought_signature) opened,
        content_block_start s.block_index
              (ContentBlock.tool_use id fc.function_call.name empty_object)
            ∷ content_block_delta s.block_index (
                ContentDelta.input_json (to_string (remove_key (codes "id") fc.function_call.args)))
            ∷ [],
      )

  unfoldable pub process_function_call : ℕ → ℕ → FunctionCallPart Json → State → Emit
  process_function_call now nanos fc s =
      emit_signature s and_then close_previous and_then start_tool now nanos fc

  -- One part: `now` is the instant of the caches' clock, `nanos` that of `generate_random`.
  unfoldable pub process_part : ℕ → ℕ → Part Json → State → Emit
  unfolding process_thought process_text process_function_call
  process_part now nanos (Part.thought part) s = process_thought now part s
  process_part now nanos (Part.text part) s = process_text part s
  process_part now nanos (Part.function_call fc) s = process_function_call now nanos fc s
  process_part now nanos (Part.inline_data d) s = (s, [])
  process_part now nanos (Part.function_response r) s = (s, [])
