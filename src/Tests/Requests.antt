-- ===== src/Tests/Requests.antt =====
-- Requests to the upstream, on concrete data.
use agcp.Prelude.{not, ◌||◌, ℕ, ◌+◌, ◌∷◌, ◌≡◌, refl, true, none, some, [], List, arith}
use agcp.Prelude.Text.{Bytes, codes}
use agcp.Prelude.Map
use agcp.Prelude.Map.{Map}
use agcp.Format.Json.{Json, Values, Fields, one_field, size}
use agcp.Format.Anthropic.{ContentBlock, Role}
use agcp.Format.Google.{FunctionCallPart}
use agcp.Format.Requests.{Message, MessageContent, MessagesRequest, Thinking}
use agcp.SignatureCache.{ModelFamily}
use agcp.Models.Family.{get_model_family}
use agcp.Sse.Parser.{new}
use agcp.Sse.Parts.{start_tool, tool_id}
use agcp.ToGoogle.Schema.{sanitize_schema, sanitize_within}
use agcp.ToGoogle.Clean.{is_plain, is_object, IsCleanValue, sanitize_schema-clean}
use agcp.ToGoogle.Enough.{sanitize_schema-fuel}
use agcp.ToGoogle.Blocks.{Lookups, convert_messages, convert_content_block}
use agcp.ToGoogle.Kept.{IsSigned, all_contents_signed, convert_messages-IsSigned}
use agcp.ToGoogle.Restored.{signature_of, convert_content_block-start_tool}
use agcp.ToGoogle.Request.{generation_config}
use agcp.ToGoogle.Limits.{within, suits, obeys, samples, generation_config_limits}
use agcp.Tests.Stream.{texts, no_caches, model}

-- `{"anyOf": [{"type": "null"}, {"type": "object", "x": 1}], "description": "d"}`
abbrev schema : Json
schema = Json.object (
    Fields.field (codes "anyOf")
      (Json.array (
        Values.value (one_field (codes "type") (Json.string (codes "null"))) (
          Values.value
            (Json.object (
              Fields.field (codes "type") (Json.string (codes "object"))
                (Fields.field (codes "x") (Json.number (codes "1")) Fields.empty)))
            Values.none_left)))
      (Fields.field (codes "description") (Json.string (codes "d")) Fields.empty))

sanitize_schema-clean_example :
    let cleaned = sanitize_schema 9 schema in
    ((not (is_plain schema) || is_object cleaned) ≡ true) × IsCleanValue cleaned
sanitize_schema-clean_example = sanitize_schema-clean 8 schema

sanitize_schema-fuel_example :
    sanitize_within (Json.string (codes "lost")) 8 schema ≡ sanitize_schema 50 schema
unfolding size
sanitize_schema-fuel_example =
    sanitize_schema-fuel (Json.string (codes "lost")) 8 50 schema (omega arith) (omega arith)

abbrev blocks : List (ContentBlock Json)
blocks =
    ContentBlock.thinking (codes "hm") none
    ∷ ContentBlock.text (codes "Hello") none
    ∷ ContentBlock.tool_use (codes "toolu_1") (codes "ls") (Json.object Fields.empty)
    ∷ []

abbrev messages : List Message
messages =
    record { role = Role.user; content = MessageContent.plain (codes "list the files") }
    ∷ record { role = Role.assistant; content = MessageContent.blocks blocks }
    ∷ []

abbrev at_start : Lookups
at_start = record { caches = no_caches; count = 0 }

convert_messages-IsSigned_example :
    let r = convert_messages (λ n. 1000 + n) messages (some ModelFamily.gemini) at_start in
    IsSigned r.0.caches × (all_contents_signed r.1 ≡ true)
unfolding Map.get
convert_messages-IsSigned_example =
    convert_messages-IsSigned (λ n. 1000 + n) messages at_start (λ id e h. absurd (ground arith))

abbrev signature : Bytes
signature = codes "012345678901234567890123456789012345678901234567890123456789"

abbrev signed : FunctionCallPart Bytes
signed = record {
  function_call = record { name = codes "ls"; args = codes "{}"; id = none };
  thought_signature = some signature;
}

convert_content_block-start_tool_example :
    let s = start_tool texts 5 7 signed (new model 7 no_caches) in
    let after : Lookups = record { caches = s.0.caches; count = 0 } in
    let r =
      convert_content_block
        (λ n. 1000 + n)
        (ContentBlock.tool_use (tool_id texts signed 7) (codes "ls") (Json.object Fields.empty))
        (some ModelFamily.gemini)
        after in
    (r.0.caches ≡ after.caches) × (signature_of r.1 ≡ some signature)
unfolding start_tool tool_id
convert_content_block-start_tool_example =
    convert_content_block-start_tool texts (λ n. 1000 + n) 5 7 0 signed (new model 7 no_caches)
      (tool_id texts signed 7) (codes "ls") signature (Json.object Fields.empty) refl (omega arith)
      refl (λ h. absurd (ground arith)) (omega arith)

abbrev request : MessagesRequest ℕ
request = record {
  model = codes "claude-opus-4-5-thinking";
  messages = messages;
  max_tokens = 100_000;
  stream = true;
  system = none;
  tools = none;
  temperature = some 1;
  top_p = none;
  top_k = some 40;
  stop_sequences = none;
  tool_choice = none;
  thinking = some (Thinking.enabled (some 2000));
  response_format = none;
  candidate_count = none;
}

generation_config_limits_example :
    (within (get_model_family request.model) 100_000 (generation_config request).max_output_tokens
      ≡ true)
    × (suits (get_model_family request.model) (generation_config request).thinking_config ≡ true)
    × (obeys request.thinking (generation_config request).thinking_config ≡ true)
    × (samples request (generation_config request) ≡ true)
generation_config_limits_example = generation_config_limits request
