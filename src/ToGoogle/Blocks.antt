-- ===== src/ToGoogle/Blocks.antt =====
-- The conversion of messages and of the blocks in them. Each lookup in a signature cache is counted
-- and reads the caches' clock at its own instant.
use agcp.Prelude.{
  ℕ, ◌+◌, Bool, true, false, Option, none, some, List, [], ◌∷◌, ◌++◌, ltb, if◌then◌else◌, length,
}
use agcp.Prelude.Text.{Bytes, codes}
use agcp.Format.Json.{Json, one_field}
use agcp.Format.Anthropic.{ContentBlock, ContentBlocks, ToolResultContent, Role}
use agcp.Format.Google.{Part, Content}
use agcp.Format.Requests.{MessageContent, Message, SystemPrompt}
use agcp.SignatureCache.{
  Caches, ModelFamily, min_signature_length, get_cached_tool_signature, is_signature_compatible,
}
use agcp.Sse.Parser.{is_empty}

abbrev pub gemini_skip_signature : Bytes
gemini_skip_signature = codes "skip_thought_signature_validator"

-- The caches, and the number of lookups in them.
pub record Lookups : Type 0 where
  pub caches : Caches
  pub count : ℕ

abbrev or_skip : Option Bytes → Bytes
or_skip none = gemini_skip_signature
or_skip (some s) = s

abbrev unless_empty : Bytes → Option Bytes
unless_empty s = if is_empty s then none else some s

abbrev pub unwrap_or_false : Option Bool → Bool
unwrap_or_false none = false
unwrap_or_false (some b) = b

-- `serde_json::json!` of an error or of a result
abbrev pub result_value : Option Bool → Bytes → Json
result_value is_error text =
    if unwrap_or_false is_error
    then one_field (codes "error") (Json.string text)
    else one_field (codes "result") (Json.string text)

-- The texts among the blocks.
unfoldable pub texts_of : ContentBlocks Json → List Bytes
texts_of ContentBlocks.nil = []
texts_of (ContentBlocks.cons (ContentBlock.text text _) blocks) = text ∷ texts_of blocks
texts_of (ContentBlocks.cons _ blocks) = texts_of blocks

-- `join("\n")`
unfoldable pub join_lines : List Bytes → Bytes
join_lines [] = []
join_lines (line ∷ []) = line
join_lines (line ∷ next ∷ lines) = line ++ 10 ∷ join_lines (next ∷ lines)

unfoldable pub result_text : ToolResultContent Json → Bytes
unfolding texts_of join_lines
result_text (ToolResultContent.plain text) = text
result_text (ToolResultContent.blocks blocks) = join_lines (texts_of blocks)

abbrev valid_signature : Option Bytes → Option Bytes
valid_signature none = none
valid_signature (some s) = if ltb (length s) min_signature_length then none else some s

abbrev thought_part : Bytes → Option Bytes → Option (Part Json)
thought_part thinking signature = some (
    Part.thought
      (record { thought = true; text = thinking; thought_signature = valid_signature signature }))

abbrev pub role_name : Role → Bytes
role_name Role.user = codes "user"
role_name Role.assistant = codes "model"

abbrev pub cons_some : Option (Part Json) → List (Part Json) → List (Part Json)
cons_some none parts = parts
cons_some (some part) parts = part ∷ parts

module _ (clock : ℕ → ℕ) where
  unfoldable pub tool_signature : Option ModelFamily → Bytes → Lookups → Lookups × Bytes
  unfolding get_cached_tool_signature
  tool_signature (some ModelFamily.gemini) id s =
      let (caches, found) = get_cached_tool_signature (clock s.count) id s.caches in
      (record { caches = caches; count = s.count + 1 }, or_skip found)
  tool_signature (some ModelFamily.claude) id s = (s, [])
  tool_signature none id s = (s, [])

  -- Whether a thinking block may go to the target.
  unfoldable pub may_keep : Option Bytes → Option ModelFamily → Lookups → Lookups × Bool
  unfolding is_signature_compatible
  may_keep (some signature) (some target) s =
      let (caches, compatible) =
        is_signature_compatible (clock s.count) signature target s.caches in
      (record { caches = caches; count = s.count + 1 }, compatible)
  may_keep none target s = (s, true)
  may_keep (some signature) none s = (s, true)

  unfoldable pub convert_content_block :
      ContentBlock Json → Option ModelFamily → Lookups → Lookups × Option (Part Json)
  unfolding tool_signature may_keep result_text
  convert_content_block (ContentBlock.text text _) target s =
      (s, some (Part.text (record { text = text })))
  convert_content_block (ContentBlock.image source) target s = (
    s,
    some (Part.inline_data (record { mime_type = source.media_type; payload = source.payload })),
  )
  convert_content_block (ContentBlock.document source _) target s = (
    s,
    some (Part.inline_data (record { mime_type = source.media_type; payload = source.payload })),
  )
  convert_content_block (ContentBlock.tool_use id name input) target s =
      let (s', signature) = tool_signature target id s in
      (
        s',
        some (
            Part.function_call (record {
              function_call = record { name = name; args = input; id = some id };
              thought_signature = unless_empty signature;
            })),
      )
  convert_content_block (ContentBlock.tool_result tool_use_id content is_error) target s = (
    s,
    some (
        Part.function_response (record {
          name = tool_use_id;
          response = result_value is_error (result_text content);
          id = some tool_use_id;
        })),
  )
  convert_content_block (ContentBlock.thinking thinking signature) target s =
      let (s', keep) = may_keep signature target s in
      (s', if keep then thought_part thinking signature else none)

  -- `filter_map`
  unfoldable pub convert_blocks :
      List (ContentBlock Json) → Option ModelFamily → Lookups → Lookups × List (Part Json)
  unfolding convert_content_block
  convert_blocks [] target s = (s, [])
  convert_blocks (block ∷ blocks) target s =
      let (s', part) = convert_content_block block target s in
      let (s'', parts) = convert_blocks blocks target s' in (s'', cons_some part parts)

  unfoldable pub convert_content :
      MessageContent → Option ModelFamily → Lookups → Lookups × List (Part Json)
  unfolding convert_blocks
  convert_content (MessageContent.plain text) target s =
      (s, Part.text (record { text = text }) ∷ [])
  convert_content (MessageContent.blocks blocks) target s = convert_blocks blocks target s

  unfoldable pub convert_message : Message → Option ModelFamily → Lookups → Lookups × Content Json
  unfolding convert_content
  convert_message message target s =
      let (s', parts) = convert_content message.content target s in
      (s', record { role = role_name message.role; parts = parts })

  unfoldable pub convert_messages :
      List Message → Option ModelFamily → Lookups → Lookups × List (Content Json)
  unfolding convert_message
  convert_messages [] target s = (s, [])
  convert_messages (message ∷ messages) target s =
      let (s', content) = convert_message message target s in
      let (s'', contents) = convert_messages messages target s' in (s'', content ∷ contents)

  unfoldable pub system_parts : SystemPrompt → Lookups → Lookups × List (Part Json)
  unfolding convert_blocks
  system_parts (SystemPrompt.plain text) s = (s, Part.text (record { text = text }) ∷ [])
  system_parts (SystemPrompt.blocks blocks) s = convert_blocks blocks none s

  -- A system instruction has the role of the user.
  unfoldable pub convert_system_prompt : SystemPrompt → Lookups → Lookups × Content Json
  unfolding system_parts
  convert_system_prompt system s =
      let (s', parts) = system_parts system s in (s', record { role = codes "user"; parts = parts })
