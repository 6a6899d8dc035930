-- ===== src/ToAnthropic/Convert.antt =====
-- `convert_response`: one whole response, converted part by part. It keeps signatures as the
-- parser does; `clock i` is what the two clocks read at the i-th part.
use agcp.Prelude.{
  ℕ, suc, ◌-◌, ◌≡◌, refl, ◌||◌, Option, none, some, List, [], ◌∷◌, ◌++◌, arith, ltb, if◌then◌else◌,
}
use agcp.Prelude.Text.{Bytes, codes, text_eq}
use agcp.Format.Anthropic.{ContentBlock, StopReason, Usage, MessagesResponse, assistant, no_usage}
use agcp.Format.Google.{Part, UsageMetadata, GenerateContentResponse}
use agcp.SignatureCache
use agcp.SignatureCache.{Caches, ModelFamily}
use agcp.Sse.Content.{items, items_in, items-convert}
use agcp.Sse.Parser.{Externals, State, family_of, hex_padded, long_enough}
use agcp.Sse.Response.{first, convert, parts_of, finish_reason_of}
use agcp.ToAnthropic.Held.{items_held, blocks_held}

unfoldable pub convert_finish_reason : Bytes → StopReason
convert_finish_reason reason =
    if text_eq reason (codes "STOP")
    then StopReason.end_turn
    else if text_eq reason (codes "MAX_TOKENS")
    then StopReason.max_tokens
    else if text_eq reason (codes "STOP_SEQUENCE")
    then StopReason.stop_sequence
    else if text_eq reason (codes "TOOL_CALL") || text_eq reason (codes "FUNCTION_CALL")
    then StopReason.tool_use
    else StopReason.end_turn

unfoldable pub convert_usage : UsageMetadata → Usage
convert_usage usage =
    let cached = usage.cached_content_token_count in
    record {
      input_tokens =
          if ltb 0 cached then usage.prompt_token_count - cached else usage.prompt_token_count;
      output_tokens = usage.candidates_token_count;
      cache_creation_input_tokens = none;
      cache_read_input_tokens = if ltb 0 cached then some cached else none;
    }

usage_of : Option UsageMetadata → Usage
unfolding convert_usage
usage_of none = no_usage
usage_of (some usage) = convert_usage usage

-- `toolu_` and the clock in nanoseconds, where the call has no id
id_or : Option Bytes → ℕ → Bytes
unfolding hex_padded
id_or none nanos = codes "toolu_" ++ hex_padded 0 nanos
id_or (some id) nanos = id

keep_tool : ℕ → Bytes → Option Bytes → Caches → Caches
keep_tool now id none c = c
keep_tool now id (some s) c =
    if long_enough s then SignatureCache.cache_tool_signature now id s c else c

keep_thinking : ℕ → ModelFamily → Option Bytes → Caches → Caches
keep_thinking now family none c = c
keep_thinking now family (some s) c =
    if long_enough s then SignatureCache.cache_thinking_signature now s family c else c

stop_reason_of : Option Bytes → Option StopReason
unfolding convert_finish_reason
stop_reason_of none = none
stop_reason_of (some reason) = some (convert_finish_reason reason)

module _ {J : Type 0} where
  unfoldable pub convert_part :
      ModelFamily → ℕ → ℕ → Part J → Caches → Caches × Option (ContentBlock J)
  unfolding id_or keep_tool keep_thinking
  convert_part family now nanos (Part.text part) c = (c, some (ContentBlock.text part.text none))
  convert_part family now nanos (Part.function_call fc) c =
      let id = id_or fc.function_call.id nanos in
      (
        keep_tool now id fc.thought_signature c,
        some (ContentBlock.tool_use id fc.function_call.name fc.function_call.args),
      )
  convert_part family now nanos (Part.thought part) c = (
    keep_thinking now family part.thought_signature c,
    some (ContentBlock.thinking part.text part.thought_signature),
  )
  convert_part family now nanos (Part.inline_data _) c = (c, none)
  convert_part family now nanos (Part.function_response _) c = (c, none)

  abbrev pub cons_some : Option (ContentBlock J) → List (ContentBlock J) → List (ContentBlock J)
  cons_some none l = l
  cons_some (some b) l = b ∷ l

  unfoldable pub convert_parts :
      ModelFamily → (ℕ → ℕ × ℕ) → ℕ → List (Part J) → Caches → Caches × List (ContentBlock J)
  unfolding convert_part
  convert_parts family clock i [] c = (c, [])
  convert_parts family clock i (part ∷ parts) c =
      let (c', block) = convert_part family (clock i).0 (clock i).1 part c in
      let (c'', blocks) = convert_parts family clock (suc i) parts c' in
      (c'', cons_some block blocks)

module _ (ext : Externals) where
  open ext use {Json}

  -- Without a candidate there are no parts, and no finish reason.
  unfoldable pub convert_response :
      (ℕ → ℕ × ℕ)
      → GenerateContentResponse Json
      → Bytes
      → Bytes
      → Caches
      → Caches × MessagesResponse Json
  unfolding convert_parts stop_reason_of usage_of family_of
  convert_response clock response model request_id c =
      let candidate = first ext response.candidates in
      let (c', content) = convert_parts (family_of model) clock 0 (parts_of ext candidate) c in
      (
        c',
        record {
          id = request_id;
          response_type = codes "message";
          role = assistant;
          content = content;
          model = model;
          stop_reason = stop_reason_of (finish_reason_of ext candidate);
          stop_sequence = none;
          usage = usage_of response.usage_metadata;
        },
      )

  convert_parts-items :
      (family : ModelFamily) (clock : ℕ → ℕ × ℕ) (i : ℕ) (parts : List (Part Json)) (c : Caches)
      → ((blocks_held (convert_parts family clock i parts c).1).0
          ≡ (items_held (items_in ext clock i parts)).0)
        × ((blocks_held (convert_parts family clock i parts c).1).1
            ≡ (items_held (items_in ext clock i parts)).1)
  unfolding convert_parts blocks_held items_in items_held
  convert_parts-items family clock i [] c = (refl, refl)
  convert_parts-items family clock i (Part.text part ∷ parts) c =
      ground (arith, convert_parts-items family clock (suc i) parts c)
  convert_parts-items family clock i (Part.thought part ∷ parts) c = ground (
    arith,
    convert_parts-items family clock (suc i) parts
        (keep_thinking (clock i).0 family part.thought_signature c),
  )
  convert_parts-items family clock i (Part.function_call fc ∷ parts) c = ground (
    arith,
    convert_parts-items family clock (suc i) parts
        (keep_tool (clock i).0 (id_or fc.function_call.id (clock i).1) fc.thought_signature c),
  )
  convert_parts-items family clock i (Part.inline_data d ∷ parts) c =
      convert_parts-items family clock (suc i) parts c
  convert_parts-items family clock i (Part.function_response d ∷ parts) c =
      convert_parts-items family clock (suc i) parts c

  -- The text and the thinking of a response that is converted whole are those that the parser's
  -- events for its candidate carry, from any state of the parser.
  pub convert_response-convert :
      (clock : ℕ → ℕ × ℕ) (response : GenerateContentResponse Json) (model request_id : Bytes)
      (c : Caches) (s : State)
      → let answer = (convert_response clock response model request_id c).1 in
        let events = (convert ext clock (first ext response.candidates) s).1 in
        ((blocks_held answer.content).0 ≡ (items_held (items events)).0)
        × ((blocks_held answer.content).1 ≡ (items_held (items events)).1)
  unfolding convert_response
  convert_response-convert clock response model request_id c s =
      let candidate = first ext response.candidates in
      rw (items-convert ext clock candidate s)
        (convert_parts-items (family_of model) clock 0 (parts_of ext candidate) c)
