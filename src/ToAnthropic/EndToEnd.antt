-- ===== src/ToAnthropic/EndToEnd.antt =====
-- From the upstream's responses, over the parser's events, to the answer that is put together.
use agcp.Prelude.{ℕ, ◌≡◌, refl, ap, ◌∙◌, true, Option, none, some, List, [], ◌∷◌, ◌++◌, arith}
use mathlib.Core.Path.{subst}
use agcp.ToAnthropic.Calls.{calls_of, received, Matches}
use mathlib.Core.List.{append-nil}
use agcp.Prelude.Text.{Bytes}
use agcp.Format.Google.{GenerateContentResponse}
use agcp.SignatureCache.{Caches}
use agcp.Sse.Content.{Item, items, items-append, items_in, items-convert}
use agcp.Sse.Parser.{Externals, State, new}
use agcp.Sse.Protocol.{ended}
use agcp.Sse.Response.{
  first, finish_reason_of, blocked, block_reason_of, parts_of, respond, process_response,
  process_responses, finish,
}
use agcp.Sse.Stream.{stream_follows_protocol}
use agcp.ToAnthropic.Build.{build_response_from_events}
use agcp.ToAnthropic.Collect.{build_response_from_events-items}
use agcp.ToAnthropic.Held.{items_held, blocks_held}

module _ (ext : Externals) where
  open ext use {Json}

  unless : Option Bytes → List Item → List Item
  unless none l = l
  unless (some reason) l = []

  -- What a response holds: the items of its first candidate, unless it or the prompt was blocked.
  unfoldable pub response_items : (ℕ → ℕ × ℕ) → GenerateContentResponse Json → List Item
  unfolding unless
  response_items clock r =
      let candidate = first ext r.candidates in
      unless (blocked ext (finish_reason_of ext candidate)) (
        unless (block_reason_of ext r.prompt_feedback)
          (items_in ext clock 0 (parts_of ext candidate)))

  unfoldable pub all_items : List ((ℕ → ℕ × ℕ) × GenerateContentResponse Json) → List Item
  all_items [] = []
  all_items ((clock, r) ∷ rs) = response_items clock r ++ all_items rs

  items-respond :
      (clock : ℕ → ℕ × ℕ) (r : GenerateContentResponse Json) (s : State)
      → items (respond ext clock r s).1 ≡ response_items clock r
  unfolding respond response_items items parts_of items_in
  items-respond clock r s = ground (arith, items-convert ext clock (first ext r.candidates) s)

  items-process_responses :
      (rs : List ((ℕ → ℕ × ℕ) × GenerateContentResponse Json)) (s : State)
      → items (process_responses ext rs s).1 ≡ all_items rs
  unfolding process_responses process_response items all_items
  items-process_responses [] s = refl
  items-process_responses ((clock, r) ∷ rs) s =
      rw (items-append, items-respond, items-process_responses rs)

  items-finish : (s : State) → items (finish ext s) ≡ []
  unfolding finish items
  items-finish s = ground arith

  -- Where a message was started, the answer that is put together from all events of a stream has
  -- exactly the text, the thinking and the calls of the responses, each whole and in order, and
  -- each call has as its input what its arguments read as, where they can be read.
  pub build_response_from_events-process_responses :
      (from_str : Bytes → Option Json) (nanos : ℕ) (model request_id : Bytes) (caches : Caches)
      (rs : List ((ℕ → ℕ × ℕ) × GenerateContentResponse Json))
      → (process_responses ext rs (new model nanos caches)).0.has_emitted_start ≡ true
      → let r = process_responses ext rs (new model nanos caches) in
        let content =
          (build_response_from_events from_str (r.1 ++ finish ext r.0) model request_id).content in
        (blocks_held content ≡ items_held (all_items rs))
        × Matches (calls_of content) (received from_str (all_items rs) [])
  build_response_from_events-process_responses from_str nanos model request_id caches rs started =
      let s = new model nanos caches in
      let r = process_responses ext rs s in
      let carried : items (r.1 ++ finish ext r.0) ≡ all_items rs =
        items-append r.1 (finish ext r.0)
        ∙ ap (λ l. items r.1 ++ l) (items-finish r.0)
        ∙ append-nil (items r.1)
        ∙ items-process_responses rs s in
      let built =
        build_response_from_events-items from_str (r.1 ++ finish ext r.0) ended model request_id
          (stream_follows_protocol ext model nanos caches rs started) in
      let content =
        (build_response_from_events from_str (r.1 ++ finish ext r.0) model request_id).content in
      (
        built.0 ∙ ap items_held carried,
        subst (λ l. Matches (calls_of content) (received from_str l [])) carried built.1,
      )
