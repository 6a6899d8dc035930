-- ===== src/Sse/Content.antt =====
-- What the client receives is what the upstream sent: text, thinking and calls, whole and in order.
use agcp.Prelude.{ℕ, suc, ◌≡◌, refl, Option, List, [], ◌∷◌, ◌++◌, arith, if◌then◌else◌}
use mathlib.Core.List.{append_assoc, append-nil}
use agcp.Prelude.Text.{Bytes, codes}
use agcp.Format.Anthropic.{
  ContentBlock, ContentDelta, StreamEvent, content_block_start, content_block_delta,
}
use agcp.Format.Google.{Part, Candidate, ThoughtPart, TextPart, FunctionCallPart}
use agcp.Sse.Parser.{Externals, State, is_empty}
use agcp.Sse.Parts.{
  process_part, process_thought, process_text, tool_id, process_function_call, close_previous,
  emit_signature, start_tool,
}
use agcp.Sse.Response.{start_message, parts_of, process_parts, convert}

-- A piece of content, whoever carries it.
pub data Item : Type 0 where
  text : Bytes → Item
  thinking : Bytes → Item
  call : Bytes → Bytes → Item
  arguments : Bytes → Item

module _ {J : Type 0} where
  abbrev pub item_of : StreamEvent J → List Item
  item_of (content_block_delta _ (ContentDelta.text t)) = text t ∷ []
  item_of (content_block_delta _ (ContentDelta.thinking t)) = thinking t ∷ []
  item_of (content_block_delta _ (ContentDelta.input_json j)) = arguments j ∷ []
  item_of (content_block_start _ (ContentBlock.tool_use id name _)) = call id name ∷ []
  item_of _ = []

  -- What a client collects from events.
  unfoldable pub items : List (StreamEvent J) → List Item
  items [] = []
  items (e ∷ events) = item_of e ++ items events

  pub items-append :
      (events more : List (StreamEvent J)) → items (events ++ more) ≡ items events ++ items more
  unfolding items
  items-append [] more = refl
  items-append (e ∷ events) more =
      rw (items-append events more, append_assoc (item_of e) (items events) (items more))

module _ (ext : Externals) where
  open ext use {Json, to_string, remove_key}

  -- What one part of a response holds; a call without an id of its own gets one from the clock.
  abbrev pub item_in : ℕ → Part Json → List Item
  item_in nanos (Part.text part) = if is_empty part.text then [] else text part.text ∷ []
  item_in nanos (Part.thought part) = if is_empty part.text then [] else thinking part.text ∷ []
  item_in nanos (Part.function_call fc) =
      call (tool_id ext fc nanos) fc.function_call.name
      ∷ arguments (to_string (remove_key (codes "id") fc.function_call.args))
      ∷ []
  item_in nanos (Part.inline_data _) = []
  item_in nanos (Part.function_response _) = []

  unfoldable pub items_in : (ℕ → ℕ × ℕ) → ℕ → List (Part Json) → List Item
  items_in clock i [] = []
  items_in clock i (part ∷ parts) = item_in (clock i).1 part ++ items_in clock (suc i) parts

  items-process_thought :
      (now nanos : ℕ) (part : ThoughtPart) (s : State)
      → items (process_thought ext now part s).1 ≡ item_in nanos (Part.thought part)
  unfolding process_thought items
  items-process_thought now nanos part s = ground arith

  items-process_text :
      (nanos : ℕ) (part : TextPart) (s : State)
      → items (process_text ext part s).1 ≡ item_in nanos (Part.text part)
  unfolding process_text items
  items-process_text nanos part s = ground arith

  items-close_previous : (s : State) → items (close_previous ext s).1 ≡ []
  unfolding close_previous items
  items-close_previous s = ground arith

  items-emit_signature : (s : State) → items (emit_signature ext s).1 ≡ []
  unfolding emit_signature items
  items-emit_signature s = ground arith

  items-start_tool :
      (now nanos : ℕ) (fc : FunctionCallPart Json) (s : State)
      → items (start_tool ext now nanos fc s).1 ≡ item_in nanos (Part.function_call fc)
  unfolding start_tool items
  items-start_tool now nanos fc s = ground arith

  items-process_part :
      (now nanos : ℕ) (part : Part Json) (s : State)
      → items (process_part ext now nanos part s).1 ≡ item_in nanos part
  unfolding process_part items
  items-process_part now nanos (Part.thought part) s = items-process_thought now nanos part s
  items-process_part now nanos (Part.text part) s = items-process_text nanos part s
  items-process_part now nanos (Part.function_call fc) s =
      unfold process_function_call in
      simp (items-append, items-emit_signature, items-close_previous)
        (items-start_tool now nanos fc _)
  items-process_part now nanos (Part.inline_data d) s = refl
  items-process_part now nanos (Part.function_response r) s = refl

  items-process_parts :
      (clock : ℕ → ℕ × ℕ) (i : ℕ) (parts : List (Part Json)) (s : State)
      → items (process_parts ext clock i parts s).1 ≡ items_in clock i parts
  unfolding process_parts items items_in
  items-process_parts clock i [] s = refl
  items-process_parts clock i (part ∷ parts) s =
      rw (items-append, items-process_part, items-process_parts clock (suc i) parts _)

  items-start_message :
      (parts : List (Part Json)) (s : State) → items (start_message ext parts s).1 ≡ []
  unfolding start_message items
  items-start_message parts s = ground arith

  -- The events for a candidate hold exactly the items of its parts, in their order, whatever the
  -- state of the parser.
  pub items-convert :
      (clock : ℕ → ℕ × ℕ) (candidate : Option (Candidate Json)) (s : State)
      → items (convert ext clock candidate s).1 ≡ items_in clock 0 (parts_of ext candidate)
  unfolding convert
  items-convert clock candidate s =
      simp (items-append, append-nil, items-start_message, items-process_parts)
