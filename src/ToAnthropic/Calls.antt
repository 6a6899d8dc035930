-- ===== src/ToAnthropic/Calls.antt =====
-- The calls of an answer that is put together from a parser's events, with their inputs.
use mathlib.Core.List.{append_assoc, append-nil}
use mathlib.Core.Path.{subst}
use agcp.Prelude.{
  ℕ, ◌≡◌, refl, sym, ap, ◌∙◌, Bool, true, false, ◌&&◌, not, Option, none, some, List, [], ◌∷◌, ◌++◌,
  arith, if◌then◌else◌, Option-cases, inl, inr, if_rule, ◌==◌,
}
use agcp.Prelude.Text.{Bytes}
use agcp.Format.Anthropic.{
  ContentBlock, ContentDelta, StreamEvent, message_start, content_block_start, content_block_delta,
  content_block_stop, message_delta,
}
use agcp.Sse.Content.{Item, text, thinking, call, arguments, items, item_of}
use agcp.Sse.Parser.{BlockType, is_empty}
use agcp.Sse.Protocol.{Phase, fresh, between, inside, accept, and_accept, follow}
use agcp.ToAnthropic.Build.{
  Builder, start, start_block, stop_text, stop_thinking, delta, on_event, on_events, set_last_input,
  read_input, non_empty, build_response_from_events,
}

-- Id, name and input.
abbrev pub Called : Type 0 → Type 0
Called J = Bytes × Bytes × J

-- Id, name and what the last argument text that could be read says.
abbrev pub Received : Type 0 → Type 0
Received J = Bytes × Bytes × Option J

module _ {J : Type 0} where
  abbrev block_calls : ContentBlock J → List (Called J)
  block_calls (ContentBlock.tool_use id name v) = (id, name, v) ∷ []
  block_calls _ = []

  unfoldable pub calls_of : List (ContentBlock J) → List (Called J)
  calls_of [] = []
  calls_of (b ∷ l) = block_calls b ++ calls_of l

  -- The last call gets its input.
  abbrev set_last : J → List (Received J) → List (Received J)
  set_last v [] = []
  set_last v ((id, name, _) ∷ []) = (id, name, some v) ∷ []
  set_last v (r ∷ next ∷ l) = r ∷ set_last v (next ∷ l)

  abbrev read_last : Option J → List (Received J) → List (Received J)
  read_last none l = l
  read_last (some v) l = set_last v l

  abbrev Reads : J → Option J → Type 0
  Reads v none = Unit
  Reads v (some w) = v ≡ w

  -- The same calls in the same order, each with the input that was read for it.
  abbrev pub Matches : List (Called J) → List (Received J) → Type 0
  Matches [] [] = Unit
  Matches [] (r ∷ m) = false ≡ true
  Matches (c ∷ l) [] = false ≡ true
  Matches ((id, name, v) ∷ l) ((id', name', o) ∷ m) =
      (id ≡ id') × (name ≡ name') × Reads v o × Matches l m

  Matches-push :
      (l : List (Called J)) (m : List (Received J)) (id name : Bytes) (v : J)
      → Matches l m
      → Matches (l ++ (id, name, v) ∷ []) (m ++ (id, name, none) ∷ [])
  Matches-push [] [] id name v h = (refl, refl, tt, tt)
  Matches-push [] (r ∷ m) id name v h = absurd (ground arith)
  Matches-push (c ∷ l) [] id name v h = absurd (ground arith)
  Matches-push (c ∷ l) (r ∷ m) id name v h = (h.0, h.1, h.2, Matches-push l m id name v h.3)

  Matches-set_last :
      (l : List (Called J)) (m : List (Received J)) (id name : Bytes) (v w : J)
      → Matches (l ++ (id, name, v) ∷ []) m
      → Matches (l ++ (id, name, w) ∷ []) (set_last w m)
  Matches-set_last [] [] id name v w h = absurd (ground arith)
  Matches-set_last [] (r ∷ []) id name v w h = (h.0, h.1, refl, tt)
  Matches-set_last [] (r ∷ s ∷ m) id name v w h = absurd (ground (arith, h.3))
  Matches-set_last (c ∷ l) [] id name v w h = absurd (ground arith)
  Matches-set_last (c ∷ []) (r ∷ []) id name v w h = absurd (ground (arith, h.3))
  Matches-set_last (c ∷ d ∷ l) (r ∷ []) id name v w h = absurd (ground (arith, h.3))
  Matches-set_last (c ∷ l) (r ∷ s ∷ m) id name v w h =
      (h.0, h.1, h.2, Matches-set_last l (s ∷ m) id name v w h.3)

  calls_of-push :
      (l : List (ContentBlock J)) (b : ContentBlock J)
      → calls_of (l ++ b ∷ []) ≡ calls_of l ++ block_calls b
  unfolding calls_of
  calls_of-push [] b = append-nil (block_calls b)
  calls_of-push (c ∷ l) b =
      ap (λ m. block_calls c ++ m) (calls_of-push l b)
      ∙ sym (append_assoc (block_calls c) (calls_of l) (block_calls b))

  calls_of-stop_text : (b : Builder J) → calls_of (stop_text b).content ≡ calls_of b.content
  unfolding stop_text
  calls_of-stop_text b =
      if_rule (λ c. calls_of c.content ≡ calls_of b.content)
        (b.in_text_block && not (is_empty b.current_text)) _ b
        (λ _.
          calls_of-push b.content (ContentBlock.text b.current_text none)
          ∙ append-nil (calls_of b.content))
        (λ _. refl)

  calls_of-stop_thinking : (b : Builder J) → calls_of (stop_thinking b).content ≡ calls_of b.content
  unfolding stop_thinking
  calls_of-stop_thinking b =
      if_rule (λ c. calls_of c.content ≡ calls_of b.content)
        (b.in_thinking_block && not (is_empty b.current_thinking)) _ b
        (λ _.
          calls_of-push b.content
            (ContentBlock.thinking b.current_thinking (non_empty b.current_signature))
          ∙ append-nil (calls_of b.content))
        (λ _. refl)

  calls_of-stop :
      (b : Builder J) → calls_of (stop_thinking (stop_text b)).content ≡ calls_of b.content
  calls_of-stop b = calls_of-stop_thinking (stop_text b) ∙ calls_of-stop_text b

  set_last_input-push :
      (v w : J) (l : List (ContentBlock J)) (id name : Bytes)
      → set_last_input w (l ++ ContentBlock.tool_use id name v ∷ [])
        ≡ l ++ ContentBlock.tool_use id name w ∷ []
  unfolding set_last_input
  set_last_input-push v w [] id name = refl
  set_last_input-push v w (b ∷ []) id name = refl
  set_last_input-push v w (b ∷ c ∷ l) id name =
      ap (λ m. b ∷ m) (set_last_input-push v w (c ∷ l) id name)

  -- The last block is a call.
  abbrev Ends : List (ContentBlock J) → Type 0
  Ends l =
      (init : List (ContentBlock J)) × (id : Bytes) × (name : Bytes) × (v : J) × (l
        ≡ init ++ ContentBlock.tool_use id name v ∷ [])

  abbrev Fits : Phase → Builder J → Type 0
  Fits (inside n BlockType.tool_use) b = Ends b.content
  Fits _ b = Unit

  module _ (from_str : Bytes → Option J) where
    abbrev receive : Item → List (Received J) → List (Received J)
    receive (call id name) m = m ++ (id, name, none) ∷ []
    receive (arguments t) m = read_last (from_str t) m
    receive (text _) m = m
    receive (thinking _) m = m

    -- What items say of calls, behind those that were received before.
    unfoldable pub received : List Item → List (Received J) → List (Received J)
    received [] m = m
    received (x ∷ l) m = received l (receive x m)

    received-append :
        (l k : List Item) (m : List (Received J)) → received (l ++ k) m ≡ received k (received l m)
    unfolding received
    received-append [] k m = refl
    received-append (x ∷ l) k m = received-append l k (receive x m)

    abbrev Steps : Option Phase → StreamEvent J → Builder J → List (Received J) → Type 0
    Steps none e b m = Unit
    Steps (some q) e b m = Fits q b × Matches (calls_of b.content) (received (item_of e) m)

    accepted :
        (test : Bool) (q : Phase) (e : StreamEvent J) (b : Builder J) (m : List (Received J))
        → Steps (some q) e b m
        → Steps (if test then some q else none) e b m
    accepted test q e b m h = if_rule (λ o. Steps o e b m) test (some q) none (λ _. h) (λ _. tt)

    on_start-Steps :
        (n i : ℕ) (block : ContentBlock J) (b : Builder J) (m : List (Received J))
        → Matches (calls_of b.content) m
        → Steps
            (accept (between n) (content_block_start i block))
            (content_block_start i block)
            (start_block block b)
            m
    unfolding start_block received
    on_start-Steps n i (ContentBlock.text t c) b m h =
        accepted (i == n) (inside n BlockType.text) (content_block_start i (ContentBlock.text t c))
          _ m (tt, h)
    on_start-Steps n i (ContentBlock.thinking t c) b m h =
        accepted (i == n) (inside n BlockType.thinking)
          (content_block_start i (ContentBlock.thinking t c)) _ m (tt, h)
    on_start-Steps n i (ContentBlock.tool_use id name v) b m h =
        accepted (i == n) (inside n BlockType.tool_use)
          (content_block_start i (ContentBlock.tool_use id name v)) _ m
          (
            (b.content, id, name, v, refl),
            subst (λ l. Matches l (m ++ (id, name, none) ∷ []))
                (sym (calls_of-push b.content (ContentBlock.tool_use id name v)))
                (Matches-push (calls_of b.content) m id name v h),
          )
    on_start-Steps n i _ b m h = ground arith

    -- The input of the last call is read.
    read_input-Steps :
        (o : Option J) (l : List (ContentBlock J)) (m : List (Received J))
        → Ends l
        → Matches (calls_of l) m
        → Ends (read_input o l) × Matches (calls_of (read_input o l)) (read_last o m)
    read_input-Steps none l m e h = (e, h)
    read_input-Steps (some w) l m (init, id, name, v, e) h =
        let set : set_last_input w l ≡ init ++ ContentBlock.tool_use id name w ∷ [] =
          ap (set_last_input w) e ∙ set_last_input-push v w init id name in
        let before =
          subst (λ k. Matches k m)
            (ap calls_of e ∙ calls_of-push init (ContentBlock.tool_use id name v)) h in
        (
          (init, id, name, w, set),
          subst (λ k. Matches k (set_last w m))
              (sym (ap calls_of set ∙ calls_of-push init (ContentBlock.tool_use id name w)))
              (Matches-set_last (calls_of init) m id name v w before),
        )

    on_delta-Steps :
        (n i : ℕ) (t : BlockType) (d : ContentDelta) (b : Builder J) (m : List (Received J))
        → Fits (inside n t) b
        → Matches (calls_of b.content) m
        → Steps
            (accept {J = J} (inside n t) (content_block_delta i d))
            (content_block_delta i d)
            (delta from_str d b)
            m
    unfolding delta received
    on_delta-Steps n i BlockType.text (ContentDelta.text t) b m f h =
        accepted (i == n && true) (inside n BlockType.text)
          (content_block_delta i (ContentDelta.text t)) _ m (tt, ground arith)
    on_delta-Steps n i BlockType.thinking (ContentDelta.thinking t) b m f h =
        accepted (i == n && true) (inside n BlockType.thinking)
          (content_block_delta i (ContentDelta.thinking t)) _ m (tt, ground arith)
    on_delta-Steps n i BlockType.thinking (ContentDelta.signature t) b m f h =
        accepted (i == n && true) (inside n BlockType.thinking)
          (content_block_delta i (ContentDelta.signature t)) _ m (tt, ground arith)
    on_delta-Steps n i BlockType.tool_use (ContentDelta.input_json t) b m f h =
        accepted (i == n && true) (inside n BlockType.tool_use)
          (content_block_delta i (ContentDelta.input_json t)) _ m
          (read_input-Steps (from_str t) b.content m f h)
    on_delta-Steps n i _ _ b m f h = ground arith

    on_event-Steps :
        (p : Phase) (e : StreamEvent J) (b : Builder J) (m : List (Received J))
        → Fits p b
        → Matches (calls_of b.content) m
        → Steps (accept p e) e (on_event from_str e b) m
    unfolding on_event received
    on_event-Steps fresh (message_start message) b m f h = (f, h)
    on_event-Steps (between n) (content_block_start i block) b m f h =
        on_start-Steps n i block b m h
    on_event-Steps (inside n t) (content_block_delta i d) b m f h = on_delta-Steps n i t d b m f h
    on_event-Steps (inside n t) (content_block_stop i) b m f h =
        accepted (i == n) _ (content_block_stop i) _ m
          (tt, subst (λ l. Matches l m) (sym (calls_of-stop b)) h)
    on_event-Steps (between n) (message_delta d u) b m f h = (f, h)
    on_event-Steps fresh (StreamEvent.error x) b m f h = (f, h)
    on_event-Steps (between n) (StreamEvent.error x) b m f h = (f, h)
    on_event-Steps (inside n t) (StreamEvent.error x) b m f h = (f, h)
    on_event-Steps _ _ b m f h = ground arith

    on_events-Matches :
        (events : List (StreamEvent J)) (p q : Phase) (b : Builder J) (m : List (Received J))
        → follow events p ≡ some q
        → Fits p b
        → Matches (calls_of b.content) m
        → Matches (calls_of (on_events from_str events b).content) (received (items events) m)
    unfolding on_events follow items received
    on_events-Matches [] p q b m h f k = k
    on_events-Matches (e ∷ events) p q b m h f k = elim (Option-cases (accept p e)) [
      | inl x ↦ absurd (ground arith)
      | inr (p', x) ↦
          let step : Steps (some p') e (on_event from_str e b) m =
            rw x at (on_event-Steps p e b m f k) in
          let later : follow events p' ≡ some q = rw (x, and_accept) at h in
          rw (received-append (item_of e) (items events) m) (
            on_events-Matches events p' q (on_event from_str e b) (received (item_of e) m) later
              step.0 step.1)
    ]

    -- The answer that is put together from events of the protocol has their calls in their order,
    -- each with the input that its argument text reads as.
    pub build_response_from_events-Matches :
        (events : List (StreamEvent J)) (q : Phase) (model request_id : Bytes)
        → follow events fresh ≡ some q
        → Matches
            (calls_of (build_response_from_events from_str events model request_id).content)
            (received (items events) [])
    unfolding build_response_from_events calls_of
    build_response_from_events-Matches events q model request_id h =
        subst (λ l. Matches l (received (items events) []))
          (sym (calls_of-stop (on_events from_str events start)))
          (on_events-Matches events fresh q start [] h tt tt)
