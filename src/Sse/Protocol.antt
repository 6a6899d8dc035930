-- ===== src/Sse/Protocol.antt =====
-- The order of events that a client of the Messages API accepts, as an automaton that the parser
-- does not know of, and the proof that the parser's events follow it.
use agcp.Prelude.{
  ℕ, suc, ◌+◌, ◌%◌, ◌^◌, ◌≡◌, refl, Bool, true, false, ◌&&◌, Option, none, some, List, [], ◌∷◌,
  ◌++◌, arith, ◌==◌, if◌then◌else◌, Option-cases, inl, inr, ◌∙◌,
}
use agcp.Format.Anthropic.{
  ContentBlock, ContentDelta, StreamEvent, message_start, content_block_start, content_block_delta,
  content_block_stop, message_delta,
}
use agcp.Format.Google.{Part, ThoughtPart, TextPart, FunctionCallPart}
use agcp.Sse.Parser.{Externals, State, BlockType}
use agcp.Sse.Parts.{
  Emit, ◌and_then◌, process_part, process_thought, process_text, process_function_call,
  close_previous, emit_signature, start_tool,
}
use agcp.Sse.Response.{process_parts}

-- Before the message, between two blocks, inside a block, and after the final delta.
pub data Phase : Type 0 where
  fresh : Phase
  between : ℕ → Phase
  inside : ℕ → BlockType → Phase
  ended : Phase

abbrev inside? : ℕ → Option BlockType → Option Phase
inside? n none = none
inside? n (some t) = some (inside n t)

-- The deltas that a block of each type takes.
abbrev allowed : BlockType → ContentDelta → Bool
allowed BlockType.text (ContentDelta.text _) = true
allowed BlockType.thinking (ContentDelta.thinking _) = true
allowed BlockType.thinking (ContentDelta.signature _) = true
allowed BlockType.tool_use (ContentDelta.input_json _) = true
allowed _ _ = false

abbrev pub and_accept : Option Phase → (Phase → Option Phase) → Option Phase
and_accept none f = none
and_accept (some ph) f = f ph

module _ {J : Type 0} where
  abbrev kind_of : ContentBlock J → Option BlockType
  kind_of (ContentBlock.text _ _) = some BlockType.text
  kind_of (ContentBlock.thinking _ _) = some BlockType.thinking
  kind_of (ContentBlock.tool_use _ _ _) = some BlockType.tool_use
  kind_of _ = none

  -- What one event does to the phase; `none` is a violation. Blocks are numbered from 0 on, a
  -- delta fits the block that it stands in, and an error may stand anywhere before the end.
  abbrev pub accept : Phase → StreamEvent J → Option Phase
  accept ended _ = none
  accept ph (StreamEvent.error _) = some ph
  accept fresh (message_start _) = some (between 0)
  accept (between n) (content_block_start i b) = if i == n then inside? n (kind_of b) else none
  accept (between n) (message_delta _ _) = some ended
  accept (inside n t) (content_block_delta i d) =
      if i == n && allowed t d then some (inside n t) else none
  accept (inside n t) (content_block_stop i) =
      if i == n then some (between ((n + 1) % 2 ^ 32)) else none
  accept _ _ = none

  unfoldable pub follow : List (StreamEvent J) → Phase → Option Phase
  follow [] ph = some ph
  follow (e ∷ events) ph = and_accept (accept ph e) (follow events)

  pub follow-append :
      (events more : List (StreamEvent J)) (p q : Phase)
      → follow events p ≡ some q
      → follow (events ++ more) p ≡ follow more q
  unfolding follow
  follow-append [] more p q h = ground arith
  follow-append (e ∷ events) more p q h = elim (Option-cases (accept p e)) [
    | inl x ↦ absurd (ground arith)
    | inr (p', x) ↦ rw (x, and_accept) (follow-append events more p' q (rw (x, and_accept) at h))
  ]

-- The phase that a parser's state stands for.
abbrev phase_at : Bool → Option BlockType → ℕ → Phase
phase_at false _ n = fresh
phase_at true none n = between n
phase_at true (some t) n = inside n t

abbrev pub phase : State → Phase
phase s = phase_at s.has_emitted_start s.current_block_type s.block_index

module _ (ext : Externals) where
  open ext use {Json}

  -- The step of a started parser follows the protocol.
  abbrev pub Follows : State → Emit ext → Type 0
  Follows s r = (follow r.1 (phase s) ≡ some (phase r.0)) × (r.0.has_emitted_start ≡ true)

  -- The events of two steps, from the phases between them.
  and_then-follow :
      (step : Emit ext) (f : State → Emit ext) (p q r : Phase)
      → follow step.1 p ≡ some q
      → follow (f step.0).1 q ≡ some r
      → follow (◌and_then◌ ext step f).1 p ≡ some r
  and_then-follow step f p q r h k = follow-append step.1 (f step.0).1 p q h ∙ k

  -- With the open block closed, if there is one, the next block may start.
  abbrev Closes : State → Emit ext → Type 0
  Closes s r =
      (follow r.1 (phase s) ≡ some (between r.0.block_index)) × (r.0.has_emitted_start ≡ true)

  close_previous-Closes : (s : State) → s.has_emitted_start ≡ true → Closes s (close_previous ext s)
  unfolding close_previous follow
  close_previous-Closes s h = ground arith

  emit_signature-Follows :
      (s : State) → s.has_emitted_start ≡ true → Follows s (emit_signature ext s)
  unfolding emit_signature follow
  emit_signature-Follows s h = ground arith

  emit_and_close-Closes :
      (s : State)
      → s.has_emitted_start ≡ true
      → Closes s (◌and_then◌ ext (emit_signature ext s) (close_previous ext))
  emit_and_close-Closes s h =
      let e = emit_signature-Follows s h in
      let c = close_previous-Closes (emit_signature ext s).0 e.1 in
      (and_then-follow (emit_signature ext s) (close_previous ext) _ _ _ e.0 c.0, c.1)

  process_thought-Follows :
      (now : ℕ) (part : ThoughtPart) (s : State)
      → s.has_emitted_start ≡ true
      → Follows s (process_thought ext now part s)
  unfolding process_thought follow
  process_thought-Follows now part s h = ground arith

  process_text-Follows :
      (part : TextPart) (s : State)
      → s.has_emitted_start ≡ true
      → Follows s (process_text ext part s)
  unfolding process_text follow
  process_text-Follows part s h = ground arith

  -- From the place between two blocks a tool's events lead into its block.
  start_tool-follow :
      (now nanos : ℕ) (fc : FunctionCallPart Json) (s : State)
      → s.has_emitted_start ≡ true
      → (follow (start_tool ext now nanos fc s).1 (between s.block_index)
          ≡ some (phase (start_tool ext now nanos fc s).0))
        × ((start_tool ext now nanos fc s).0.has_emitted_start ≡ true)
  unfolding start_tool follow
  start_tool-follow now nanos fc s h = ground arith

  process_function_call-Follows :
      (now nanos : ℕ) (fc : FunctionCallPart Json) (s : State)
      → s.has_emitted_start ≡ true
      → Follows s (process_function_call ext now nanos fc s)
  unfolding process_function_call
  process_function_call-Follows now nanos fc s h =
      let closing = ◌and_then◌ ext (emit_signature ext s) (close_previous ext) in
      let c = emit_and_close-Closes s h in
      let t = start_tool-follow now nanos fc closing.0 c.1 in
      (and_then-follow closing (start_tool ext now nanos fc) _ _ _ c.0 t.0, t.1)

  process_part-Follows :
      (now nanos : ℕ) (part : Part Json) (s : State)
      → s.has_emitted_start ≡ true
      → Follows s (process_part ext now nanos part s)
  unfolding process_part follow
  process_part-Follows now nanos (Part.thought part) s h = process_thought-Follows now part s h
  process_part-Follows now nanos (Part.text part) s h = process_text-Follows part s h
  process_part-Follows now nanos (Part.function_call fc) s h =
      process_function_call-Follows now nanos fc s h
  process_part-Follows now nanos (Part.inline_data d) s h = (refl, h)
  process_part-Follows now nanos (Part.function_response r) s h = (refl, h)

  pub process_parts-Follows :
      (clock : ℕ → ℕ × ℕ) (i : ℕ) (parts : List (Part Json)) (s : State)
      → s.has_emitted_start ≡ true
      → Follows s (process_parts ext clock i parts s)
  unfolding follow process_parts
  process_parts-Follows clock i [] s h = (refl, h)
  process_parts-Follows clock i (part ∷ parts) s h =
      let one = process_part ext (clock i).0 (clock i).1 part s in
      let f = process_part-Follows (clock i).0 (clock i).1 part s h in
      let g = process_parts-Follows clock (suc i) parts one.0 f.1 in
      (and_then-follow one (process_parts ext clock (suc i) parts) _ _ _ f.0 g.0, g.1)
