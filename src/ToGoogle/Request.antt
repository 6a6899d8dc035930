-- ===== src/ToGoogle/Request.antt =====
-- `convert_request`: the settings of a request, its tools and the choice among them.
use agcp.Prelude.{ℕ, Bool, true, ◌&&◌, Option, none, some, List, [], ◌∷◌, map, min, if◌then◌else◌}
use agcp.Prelude.Text.{Bytes, codes, text_eq}
use agcp.Format.Json.{Json, size}
use agcp.Format.Google.{Content}
use agcp.Format.Requests.{
  SystemPrompt, ToolChoice, Thinking, ResponseFormatInternal, Tool, MessagesRequest, ThinkingConfig,
  GenerationConfig, FunctionDeclaration, GoogleTool, ToolConfig, GenerateContentRequest,
}
use agcp.Models.Family.{get_model_family, is_thinking_model}
use agcp.SignatureCache.{from_str}
use agcp.ToGoogle.Blocks.{Lookups, convert_messages, convert_system_prompt}
use agcp.ToGoogle.Schema.{sanitize_schema}

abbrev pub claude_max_output_tokens : ℕ
claude_max_output_tokens = 64_000

abbrev pub gemini_max_output_tokens : ℕ
gemini_max_output_tokens = 65_536

abbrev or_16000 : Option ℕ → ℕ
or_16000 none = 16_000
or_16000 (some n) = n

-- Thoughts are included, within a budget on Gemini.
abbrev include_thoughts : Bytes → Option ℕ → Option ThinkingConfig
include_thoughts model_family budget =
    if text_eq model_family (codes "claude")
    then some (ThinkingConfig.claude true)
    else if text_eq model_family (codes "gemini")
    then some (ThinkingConfig.gemini true (or_16000 budget))
    else none

unfoldable pub thinking_config : Bool → Bytes → Option Thinking → Option ThinkingConfig
thinking_config is_thinking model_family (some (Thinking.enabled budget_tokens)) =
    include_thoughts model_family budget_tokens
thinking_config is_thinking model_family (some Thinking.disabled) = none
thinking_config is_thinking model_family none =
    if is_thinking then include_thoughts model_family none else none

unfoldable pub max_output : Bytes → ℕ → ℕ
max_output model_family max_tokens =
    if text_eq model_family (codes "claude")
    then min max_tokens claude_max_output_tokens
    else if text_eq model_family (codes "gemini")
    then min max_tokens gemini_max_output_tokens
    else max_tokens

abbrev pub sanitized : Json → Json
sanitized schema = sanitize_schema (size schema) schema

abbrev pub mime_type : Option ResponseFormatInternal → Option Bytes
mime_type none = none
mime_type (some ResponseFormatInternal.json_object) = some (codes "application/json")
mime_type (some (ResponseFormatInternal.json_schema schema)) = some (codes "application/json")

unfoldable pub response_schema : Option ResponseFormatInternal → Option Json
unfolding sanitize_schema
response_schema (some (ResponseFormatInternal.json_schema schema)) = some (sanitized schema)
response_schema (some ResponseFormatInternal.json_object) = none
response_schema none = none

abbrev pub declaration : Tool → FunctionDeclaration
declaration tool = record {
  name = tool.name;
  description = tool.description;
  parameters = some (sanitized tool.input_schema);
}

unfoldable pub convert_tools : List Tool → List GoogleTool
unfolding sanitize_schema
convert_tools tools = record { function_declarations = map declaration tools } ∷ []

-- No list of tools, and an empty one, are left out.
unfoldable pub tools_of : Option (List Tool) → Option (List GoogleTool)
unfolding convert_tools
tools_of none = none
tools_of (some []) = none
tools_of (some (tool ∷ tools)) = some (convert_tools (tool ∷ tools))

unfoldable pub convert_tool_choice : ToolChoice → ToolConfig
convert_tool_choice ToolChoice.auto = record {
  function_calling_config = record { mode = codes "AUTO"; allowed_function_names = none };
}
convert_tool_choice ToolChoice.any = record {
  function_calling_config = record { mode = codes "ANY"; allowed_function_names = none };
}
convert_tool_choice (ToolChoice.tool name) = record {
  function_calling_config = record {
    mode = codes "ANY";
    allowed_function_names = some (name ∷ []);
  };
}

abbrev pub choice_of : Option ToolChoice → Option ToolConfig
choice_of none = none
choice_of (some choice) = some (convert_tool_choice choice)

abbrev unless {ℓ} : {A : Type ℓ} → Bool → Option A → Option A
unless b o = if b then none else o

module _ (clock : ℕ → ℕ) where
  abbrev pub system_of : Option SystemPrompt → Lookups → Lookups × Option (Content Json)
  system_of none s = (s, none)
  system_of (some system) s =
      let (s', content) = convert_system_prompt clock system s in (s', some content)

module _ {F : Type 0} where
  -- Claude's thinking models take no sampling parameters.
  unfoldable pub generation_config : MessagesRequest F → GenerationConfig F
  unfolding thinking_config max_output response_schema is_thinking_model get_model_family
  generation_config request =
      let is_thinking = is_thinking_model request.model in
      let model_family = get_model_family request.model in
      let fixed = is_thinking && text_eq model_family (codes "claude") in
      record {
        max_output_tokens = some (max_output model_family request.max_tokens);
        temperature = unless fixed request.temperature;
        top_p = unless fixed request.top_p;
        top_k = unless fixed request.top_k;
        stop_sequences = request.stop_sequences;
        thinking_config = thinking_config is_thinking model_family request.thinking;
        response_mime_type = mime_type request.response_format;
        response_schema = response_schema request.response_format;
        candidate_count = request.candidate_count;
      }

  module _ (clock : ℕ → ℕ) where
    unfoldable pub convert_request :
        MessagesRequest F → Lookups → Lookups × GenerateContentRequest F
    unfolding convert_messages convert_system_prompt generation_config tools_of convert_tool_choice
        from_str get_model_family
    convert_request request s =
        let target = from_str (get_model_family request.model) in
        let (s', contents) = convert_messages clock request.messages target s in
        let (s'', system) = system_of clock request.system s' in
        (
          s'',
          record {
            contents = contents;
            system_instruction = system;
            generation_config = some (generation_config request);
            tools = tools_of request.tools;
            tool_config = choice_of request.tool_choice;
            session_id = none;
          },
        )
