-- ===== src/ToAnthropic/Collect.antt =====
-- A response that is put together from a parser's events holds all that the events carry.
use mathlib.Core.List.{append-nil}
use agcp.Prelude.{
  ℕ, ◌≡◌, refl, sym, ap, ◌∙◌, Bool, true, ◌&&◌, not, Option, none, some, List, [], ◌∷◌, ◌++◌, arith,
  if◌then◌else◌, Option-cases, inl, inr, if_rule, ◌==◌,
}
use agcp.Prelude.Text.{Bytes}
use agcp.Format.Anthropic.{
  ContentBlock, ContentDelta, StreamEvent, message_start, content_block_start, content_block_delta,
  content_block_stop, message_delta,
}
use agcp.Sse.Content.{Item, text, thinking, call, arguments, items, item_of}
use agcp.Sse.Parser.{BlockType, is_empty}
use agcp.Sse.Protocol.{Phase, fresh, between, inside, ended, accept, and_accept, follow}
use agcp.ToAnthropic.Build.{
  Builder, non_empty, start, start_block, stop_text, stop_thinking, delta, on_event, on_events,
  build_response_from_events,
}
use agcp.ToAnthropic.Calls.{calls_of, received, Matches, build_response_from_events-Matches}
use agcp.ToAnthropic.Held.{
  Held, nothing, ◌and◌, and_assoc, and-nothing, same, item_held, items_held, items_held-append,
  blocks_held, blocks_held-push, blocks_held-read_input,
}

module _ {J : Type 0} where
  -- With the block that is open.
  abbrev whole : Builder J → Held
  whole b = blocks_held b.content and (b.current_text, b.current_thinking, [])

  abbrev Quiet : Builder J → Type 0
  Quiet b = (b.current_text ≡ []) × (b.current_thinking ≡ [])

  whole-stop_text : (b : Builder J) → whole (stop_text b) ≡ whole b
  unfolding stop_text
  whole-stop_text b =
      if_rule (λ c. whole c ≡ whole b) (b.in_text_block && not (is_empty b.current_text)) _ b
        (λ _.
          ap (λ x. x and ([], b.current_thinking, []))
            (blocks_held-push b.content (ContentBlock.text b.current_text none))
          ∙ and_assoc (blocks_held b.content) (b.current_text, [], []) ([], b.current_thinking, [])
          ∙ ap (λ t. blocks_held b.content and (t, b.current_thinking, []))
              (append-nil b.current_text))
        (λ _. refl)

  whole-stop_thinking : (b : Builder J) → whole (stop_thinking b) ≡ whole b
  unfolding stop_thinking
  whole-stop_thinking b =
      if_rule (λ c. whole c ≡ whole b) (b.in_thinking_block && not (is_empty b.current_thinking)) _
        b
        (λ _.
          ap (λ x. x and (b.current_text, [], []))
            (blocks_held-push b.content
              (ContentBlock.thinking b.current_thinking (non_empty b.current_signature)))
          ∙ and_assoc (blocks_held b.content) ([], b.current_thinking, []) (b.current_text, [], [])
          ∙ ap (λ t. blocks_held b.content and (b.current_text, t, []))
              (append-nil b.current_thinking))
        (λ _. refl)

  whole-tool_use :
      (id name : Bytes) (v : J) (b : Builder J)
      → Quiet b
      → whole (start_block (ContentBlock.tool_use id name v) b)
        ≡ whole b and ([], [], (id, name) ∷ [])
  unfolding start_block
  whole-tool_use id name v b q =
      let c = blocks_held b.content in
      let x : Held = ([], [], (id, name) ∷ []) in
      let quiet : Path Held (b.current_text, b.current_thinking, []) nothing =
        λ i. (q.0 i, q.1 i, []) in
      ap (λ y. y and (b.current_text, b.current_thinking, []))
        (blocks_held-push b.content (ContentBlock.tool_use id name v))
      ∙ ap (λ y. (c and x) and y) quiet
      ∙ and-nothing (c and x)
      ∙ ap (λ y. y and x) (sym (and-nothing c))
      ∙ ap (λ y. (c and y) and x) (sym quiet)

  -- What a phase of the protocol says of the local variables.
  abbrev Fits : Phase → Builder J → Type 0
  Fits (inside n BlockType.text) b = (b.in_text_block ≡ true) × (b.current_thinking ≡ [])
  Fits (inside n BlockType.thinking) b = (b.in_thinking_block ≡ true) × (b.current_text ≡ [])
  Fits (inside n BlockType.tool_use) b = Quiet b
  Fits fresh b = Quiet b
  Fits (between n) b = Quiet b
  Fits ended b = Quiet b

  stop-Quiet :
      (n : ℕ) (t : BlockType) (b : Builder J)
      → Fits (inside n t) b
      → Quiet (stop_thinking (stop_text b))
  unfolding stop_text stop_thinking
  stop-Quiet n BlockType.text b f = ground arith
  stop-Quiet n BlockType.thinking b f = ground arith
  stop-Quiet n BlockType.tool_use b f = ground arith

  final-Quiet : (q : Phase) (b : Builder J) → Fits q b → Quiet (stop_thinking (stop_text b))
  unfolding stop_text stop_thinking
  final-Quiet fresh b f = ground arith
  final-Quiet (between n) b f = ground arith
  final-Quiet ended b f = ground arith
  final-Quiet (inside n t) b f = stop-Quiet n t b f

  module _ (from_str : Bytes → Option J) where
    whole-text :
        (t : Bytes) (b : Builder J)
        → b.in_text_block ≡ true
        → whole (delta from_str (ContentDelta.text t) b) ≡ whole b and (t, [], [])
    unfolding delta
    whole-text t b e =
        let c = blocks_held b.content in
        let x : Held = (b.current_text, b.current_thinking, []) in
        rw e (
          ap (λ y. c and (b.current_text ++ t, y, [])) (sym (append-nil b.current_thinking))
          ∙ sym (and_assoc c x (t, [], [])))

    whole-thinking :
        (t : Bytes) (b : Builder J)
        → b.in_thinking_block ≡ true
        → whole (delta from_str (ContentDelta.thinking t) b) ≡ whole b and ([], t, [])
    unfolding delta
    whole-thinking t b e =
        let c = blocks_held b.content in
        let x : Held = (b.current_text, b.current_thinking, []) in
        rw e (
          ap (λ y. c and (y, b.current_thinking ++ t, [])) (sym (append-nil b.current_text))
          ∙ sym (and_assoc c x ([], t, [])))

    -- A step keeps what was held, adds what the event carries, and fits the next phase.
    abbrev Steps : Option Phase → Builder J → StreamEvent J → Builder J → Type 0
    Steps none b e b' = Unit
    Steps (some q) b e b' = Fits q b' × (whole b' ≡ whole b and items_held (item_of e))

    accepted :
        (test : Bool) (q : Phase) (b : Builder J) (e : StreamEvent J) (b' : Builder J)
        → Steps (some q) b e b'
        → Steps (if test then some q else none) b e b'
    accepted test q b e b' h = if_rule (λ o. Steps o b e b') test (some q) none (λ _. h) (λ _. tt)

    -- An event with one item.
    one : (x y : Held) (z : Item) → x ≡ y and item_held z → x ≡ y and (item_held z and nothing)
    one x y z h = h ∙ ap (◌and◌ y) (sym (and-nothing (item_held z)))

    on_start-Steps :
        (n i : ℕ) (block : ContentBlock J) (b : Builder J)
        → Quiet b
        → Steps
            (accept (between n) (content_block_start i block))
            b
            (content_block_start i block)
            (start_block block b)
    unfolding start_block items_held
    on_start-Steps n i (ContentBlock.text t c) b f =
        accepted (i == n) (inside n BlockType.text) b
          (content_block_start i (ContentBlock.text t c)) _
          (
            (refl, f.1),
            same _ (whole b)
                (ap (λ y. blocks_held b.content and (y, b.current_thinking, [])) (sym f.0)),
          )
    on_start-Steps n i (ContentBlock.thinking t c) b f =
        accepted (i == n) (inside n BlockType.thinking) b
          (content_block_start i (ContentBlock.thinking t c)) _
          (
            (refl, f.0),
            same _ (whole b)
                (ap (λ y. blocks_held b.content and (b.current_text, y, [])) (sym f.1)),
          )
    on_start-Steps n i (ContentBlock.tool_use id name v) b f =
        accepted (i == n) (inside n BlockType.tool_use) b
          (content_block_start i (ContentBlock.tool_use id name v)) _
          (f, one _ (whole b) (call id name) (whole-tool_use id name v b f))
    on_start-Steps n i _ b f = ground arith

    on_delta-Steps :
        (n i : ℕ) (t : BlockType) (d : ContentDelta) (b : Builder J)
        → Fits (inside n t) b
        → Steps
            (accept {J = J} (inside n t) (content_block_delta i d))
            b
            (content_block_delta i d)
            (delta from_str d b)
    unfolding items_held delta
    on_delta-Steps n i BlockType.text (ContentDelta.text t) b f =
        accepted (i == n && true) (inside n BlockType.text) b
          (content_block_delta i (ContentDelta.text t)) _
          (ground arith, one _ (whole b) (text t) (whole-text t b f.0))
    on_delta-Steps n i BlockType.thinking (ContentDelta.thinking t) b f =
        accepted (i == n && true) (inside n BlockType.thinking) b
          (content_block_delta i (ContentDelta.thinking t)) _
          (ground arith, one _ (whole b) (thinking t) (whole-thinking t b f.0))
    on_delta-Steps n i BlockType.thinking (ContentDelta.signature t) b f =
        accepted (i == n && true) (inside n BlockType.thinking) b
          (content_block_delta i (ContentDelta.signature t)) _
          (ground arith, same _ (whole b) (ground arith))
    on_delta-Steps n i BlockType.tool_use (ContentDelta.input_json t) b f =
        accepted (i == n && true) (inside n BlockType.tool_use) b
          (content_block_delta i (ContentDelta.input_json t)) _
          (
            f,
            one _ (whole b) (arguments t) (
                same _ (whole b) (
                  ap (λ c. c and (b.current_text, b.current_thinking, []))
                    (blocks_held-read_input (from_str t) b.content))),
          )
    on_delta-Steps n i _ _ b f = ground arith

    on_stop-Steps :
        (n i : ℕ) (t : BlockType) (b : Builder J)
        → Fits (inside n t) b
        → Steps
            (accept {J = J} (inside n t) (content_block_stop i))
            b
            (content_block_stop i)
            (stop_thinking (stop_text b))
    unfolding items_held
    on_stop-Steps n i t b f = accepted (i == n) _ b (content_block_stop i) _ (
      stop-Quiet n t b f,
      same _ (whole b) (whole-stop_thinking (stop_text b) ∙ whole-stop_text b),
    )

    on_event-Steps :
        (p : Phase) (e : StreamEvent J) (b : Builder J)
        → Fits p b
        → Steps (accept p e) b e (on_event from_str e b)
    unfolding on_event items_held
    on_event-Steps fresh (message_start message) b f = (f, same _ (whole b) refl)
    on_event-Steps (between n) (content_block_start i block) b f = on_start-Steps n i block b f
    on_event-Steps (inside n t) (content_block_delta i d) b f = on_delta-Steps n i t d b f
    on_event-Steps (inside n t) (content_block_stop i) b f = on_stop-Steps n i t b f
    on_event-Steps (between n) (message_delta d u) b f = (f, same _ (whole b) refl)
    on_event-Steps fresh (StreamEvent.error x) b f = (f, same _ (whole b) refl)
    on_event-Steps (between n) (StreamEvent.error x) b f = (f, same _ (whole b) refl)
    on_event-Steps (inside n t) (StreamEvent.error x) b f = (f, same _ (whole b) refl)
    on_event-Steps _ _ b f = ground arith

    on_events-Steps :
        (events : List (StreamEvent J)) (p q : Phase) (b : Builder J)
        → follow events p ≡ some q
        → Fits p b
        → Fits q (on_events from_str events b)
          × (whole (on_events from_str events b) ≡ whole b and items_held (items events))
    unfolding on_events follow items items_held
    on_events-Steps [] p q b h f = (ground arith, same _ (whole b) refl)
    on_events-Steps (e ∷ events) p q b h f = elim (Option-cases (accept p e)) [
      | inl x ↦ absurd (ground arith)
      | inr (p', x) ↦
          let step : Steps (some p') b e (on_event from_str e b) =
            rw x at (on_event-Steps p e b f) in
          let later : follow events p' ≡ some q = rw (x, and_accept) at h in
          let rest = on_events-Steps events p' q (on_event from_str e b) later step.0 in
          (
            rest.0,
            rest.1
                ∙ ap (λ y. y and items_held (items events)) step.1
                ∙ and_assoc (whole b) (items_held (item_of e)) (items_held (items events))
                ∙ ap (◌and◌ (whole b)) (sym (items_held-append (item_of e) (items events))),
          )
    ]

    blocks_held-build_response_from_events :
        (events : List (StreamEvent J)) (q : Phase) (model request_id : Bytes)
        → follow events fresh ≡ some q
        → blocks_held (build_response_from_events from_str events model request_id).content
          ≡ items_held (items events)
    unfolding build_response_from_events items_held items stop_text stop_thinking blocks_held
    blocks_held-build_response_from_events events q model request_id h =
        let b = on_events from_str events start in
        let steps = on_events-Steps events fresh q start h (refl, refl) in
        let c = stop_thinking (stop_text b) in
        let quiet = final-Quiet q b steps.0 in
        sym (and-nothing (blocks_held c.content))
        ∙ ap (λ (r : Bytes × Bytes). blocks_held c.content and (r.0, r.1, []))
            (λ i. (sym quiet.0 i, sym quiet.1 i))
        ∙ whole-stop_thinking (stop_text b)
        ∙ whole-stop_text b
        ∙ steps.1

    -- The answer that is put together from events of the protocol, complete or not, has exactly
    -- their text, their thinking and their calls, each in order, and each call has as its input
    -- what the last of its argument texts that can be read says.
    pub build_response_from_events-items :
        (events : List (StreamEvent J)) (q : Phase) (model request_id : Bytes)
        → follow events fresh ≡ some q
        → let content = (build_response_from_events from_str events model request_id).content in
          (blocks_held content ≡ items_held (items events))
          × Matches (calls_of content) (received from_str (items events) [])
    build_response_from_events-items events q model request_id h = (
      blocks_held-build_response_from_events events q model request_id h,
      build_response_from_events-Matches from_str events q model request_id h,
    )
