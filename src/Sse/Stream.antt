-- ===== src/Sse/Stream.antt =====
-- Whole streams: the events of any responses, and of the end, follow the protocol.
use agcp.Prelude.{
  ℕ, ◌≡◌, refl, ◌∙◌, Bool, true, false, Option, none, some, List, [], ◌∷◌, ◌++◌, arith,
}
use agcp.Prelude.Text.{Bytes}
use agcp.Format.Google.{GenerateContentResponse, UsageMetadata, Candidate, Part}
use agcp.SignatureCache.{Caches}
use agcp.Sse.Parser.{Externals, new, State, BlockType}
use agcp.Sse.Parts.{Emit, ◌and_then◌}
use agcp.Sse.Protocol.{fresh, ended, follow, follow-append, phase, process_parts-Follows}
use agcp.Sse.Response.{
  start_message, first, respond, parts_of, finish_reason_of, set_stop_reason, use_metadata,
  process_parts, convert, process_response, finish, process_responses,
}

-- Until the message starts, no block is open and none has been numbered.
abbrev AtStart : Bool → Option BlockType → ℕ → Type 0
AtStart true t n = Unit
AtStart false none n = n ≡ 0
AtStart false (some t) n = ⊥

abbrev pub IsValid : State → Type 0
IsValid s = AtStart s.has_emitted_start s.current_block_type s.block_index

module _ (ext : Externals) where
  open ext use {Json}

  abbrev Leads : State → Emit ext → Type 0
  Leads s r = (follow r.1 (phase s) ≡ some (phase r.0)) × IsValid r.0

  and_then-Leads :
      (step : Emit ext) (f : State → Emit ext) (s : State)
      → Leads s step
      → Leads step.0 (f step.0)
      → Leads s (◌and_then◌ ext step f)
  and_then-Leads step f s h k =
      (follow-append step.1 (f step.0).1 (phase s) (phase step.0) h.0 ∙ k.0, k.1)

  start_message-Leads :
      (part : Part Json) (parts : List (Part Json)) (s : State)
      → IsValid s
      → (follow (start_message ext (part ∷ parts) s).1 (phase s)
          ≡ some (phase (start_message ext (part ∷ parts) s).0))
        × ((start_message ext (part ∷ parts) s).0.has_emitted_start ≡ true)
  unfolding start_message follow
  start_message-Leads part parts s v = ground arith

  start_message-nil : (s : State) → start_message ext [] s ≡ (s, [])
  unfolding start_message
  start_message-nil s = ground arith

  -- A started parser is valid.
  started-IsValid : (s : State) → s.has_emitted_start ≡ true → IsValid s
  started-IsValid s h = ground arith

  all_parts-Leads :
      (clock : ℕ → ℕ × ℕ) (parts : List (Part Json)) (s : State)
      → IsValid s
      → Leads s (◌and_then◌ ext (start_message ext parts s) (process_parts ext clock 0 parts))
  unfolding follow process_parts
  all_parts-Leads clock [] s v = rw (start_message-nil s) (refl, v)
  all_parts-Leads clock (part ∷ parts) s v =
      let started = start_message ext (part ∷ parts) s in
      let h = start_message-Leads part parts s v in
      let k = process_parts-Follows ext clock 0 (part ∷ parts) started.0 h.1 in
      and_then-Leads started (process_parts ext clock 0 (part ∷ parts)) s
        (h.0, started-IsValid started.0 h.1)
        (k.0, started-IsValid (process_parts ext clock 0 (part ∷ parts) started.0).0 k.1)

  convert-Leads :
      (clock : ℕ → ℕ × ℕ) (candidate : Option (Candidate Json)) (s : State)
      → IsValid s
      → Leads s (convert ext clock candidate s)
  unfolding convert follow
  convert-Leads clock candidate s v =
      let parts = parts_of ext candidate in
      let all = ◌and_then◌ ext (start_message ext parts s) (process_parts ext clock 0 parts) in
      let h = all_parts-Leads clock parts s v in
      and_then-Leads all (λ s'. (set_stop_reason ext (finish_reason_of ext candidate) s', [])) s h
        (refl, h.1)

  respond-Leads :
      (clock : ℕ → ℕ × ℕ) (response : GenerateContentResponse Json) (s : State)
      → IsValid s
      → Leads s (respond ext clock response s)
  unfolding respond follow
  respond-Leads clock response s v =
      let c = first ext response.candidates in ground (arith, convert-Leads clock c s v)

  phase-use_metadata :
      (usage : Option UsageMetadata) (s : State)
      → (phase (use_metadata usage s) ≡ phase s) × (IsValid s → IsValid (use_metadata usage s))
  unfolding use_metadata
  phase-use_metadata none s = (refl, λ v. v)
  phase-use_metadata (some usage) s = (refl, λ v. v)

  process_response-Leads :
      (clock : ℕ → ℕ × ℕ) (response : GenerateContentResponse Json) (s : State)
      → IsValid s
      → Leads s (process_response ext clock response s)
  unfolding process_response
  process_response-Leads clock response s v =
      let m = phase-use_metadata response.usage_metadata s in
      rw (← m.0) (respond-Leads clock response (use_metadata response.usage_metadata s) (m.1 v))

  process_responses-Leads :
      (rs : List ((ℕ → ℕ × ℕ) × GenerateContentResponse Json)) (s : State)
      → IsValid s
      → Leads s (process_responses ext rs s)
  unfolding process_responses follow
  process_responses-Leads [] s v = (refl, v)
  process_responses-Leads ((clock, r) ∷ rs) s v =
      let one = process_response ext clock r s in
      let h = process_response-Leads clock r s v in
      and_then-Leads one (process_responses ext rs) s h (process_responses-Leads rs one.0 h.1)

  finish-ended :
      (s : State) → s.has_emitted_start ≡ true → follow (finish ext s) (phase s) ≡ some ended
  unfolding finish follow
  finish-ended s h = ground arith

  -- From a new parser, the events of any responses follow the protocol, up to the phase that the
  -- parser's state stands for.
  pub responses_follow_protocol :
      (model : Bytes) (nanos : ℕ) (caches : Caches)
      (rs : List ((ℕ → ℕ × ℕ) × GenerateContentResponse Json))
      → let r = process_responses ext rs (new model nanos caches) in
        follow r.1 fresh ≡ some (phase r.0)
  unfolding new
  responses_follow_protocol model nanos caches rs =
      (process_responses-Leads rs (new model nanos caches) refl).0

  -- Once the message has started, the events of `finish` behind those of the responses complete
  -- it: every block is closed, and the final delta is the last event.
  pub stream_follows_protocol :
      (model : Bytes) (nanos : ℕ) (caches : Caches)
      (rs : List ((ℕ → ℕ × ℕ) × GenerateContentResponse Json))
      → (process_responses ext rs (new model nanos caches)).0.has_emitted_start ≡ true
      → let r = process_responses ext rs (new model nanos caches) in
        follow (r.1 ++ finish ext r.0) fresh ≡ some ended
  stream_follows_protocol model nanos caches rs started =
      let r = process_responses ext rs (new model nanos caches) in
      follow-append r.1 (finish ext r.0) fresh (phase r.0)
        (responses_follow_protocol model nanos caches rs)
      ∙ finish-ended r.0 started
