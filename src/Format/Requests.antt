-- ===== src/Format/Requests.antt =====
-- The request types of src/format/anthropic.rs and src/format/google.rs. `F` is the type of `f32`.
use agcp.Prelude.{ℕ, Bool, Option, List}
use agcp.Prelude.Text.{Bytes}
use agcp.Format.Json.{Json}
use agcp.Format.Anthropic.{ContentBlock, Role}
use agcp.Format.Google.{Content}

pub data MessageContent : Type 0 where
  plain : Bytes → MessageContent
  blocks : List (ContentBlock Json) → MessageContent

pub record Message : Type 0 where
  pub role : Role
  pub content : MessageContent

pub data SystemPrompt : Type 0 where
  plain : Bytes → SystemPrompt
  blocks : List (ContentBlock Json) → SystemPrompt

pub data ToolChoice : Type 0 where
  auto any : ToolChoice
  tool : (name : Bytes) → ToolChoice

-- What the client asks for.
pub data Thinking : Type 0 where
  enabled : (budget_tokens : Option ℕ) → Thinking
  disabled : Thinking

pub data ResponseFormatInternal : Type 0 where
  json_object : ResponseFormatInternal
  json_schema : (schema : Json) → ResponseFormatInternal

pub record Tool : Type 0 where
  pub name : Bytes
  pub description : Option Bytes
  pub input_schema : Json

pub record MessagesRequest (F : Type 0) : Type 0 where
  pub model : Bytes
  pub messages : List Message
  pub max_tokens : ℕ
  pub stream : Bool
  pub system : Option SystemPrompt
  pub tools : Option (List Tool)
  pub temperature : Option F
  pub top_p : Option F
  pub top_k : Option ℕ
  pub stop_sequences : Option (List Bytes)
  pub tool_choice : Option ToolChoice
  pub thinking : Option Thinking
  pub response_format : Option ResponseFormatInternal
  pub candidate_count : Option ℕ

pub data ThinkingConfig : Type 0 where
  claude : (include_thoughts : Bool) → ThinkingConfig
  gemini : (include_thoughts : Bool) (thinking_budget : ℕ) → ThinkingConfig

pub record GenerationConfig (F : Type 0) : Type 0 where
  pub max_output_tokens : Option ℕ
  pub temperature : Option F
  pub top_p : Option F
  pub top_k : Option ℕ
  pub stop_sequences : Option (List Bytes)
  pub thinking_config : Option ThinkingConfig
  pub response_mime_type : Option Bytes
  pub response_schema : Option Json
  pub candidate_count : Option ℕ

pub record FunctionDeclaration : Type 0 where
  pub name : Bytes
  pub description : Option Bytes
  pub parameters : Option Json

pub record GoogleTool : Type 0 where
  pub function_declarations : List FunctionDeclaration

pub record FunctionCallingConfig : Type 0 where
  pub mode : Bytes
  pub allowed_function_names : Option (List Bytes)

pub record ToolConfig : Type 0 where
  pub function_calling_config : FunctionCallingConfig

pub record GenerateContentRequest (F : Type 0) : Type 0 where
  pub contents : List (Content Json)
  pub system_instruction : Option (Content Json)
  pub generation_config : Option (GenerationConfig F)
  pub tools : Option (List GoogleTool)
  pub tool_config : Option ToolConfig
  pub session_id : Option Bytes
