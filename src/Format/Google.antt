-- ===== src/Format/Google.antt =====
-- The response types of src/format/google.rs.
use agcp.Prelude.{ℕ, Bool, Option, List}
use agcp.Prelude.Text.{Bytes}

pub record TextPart : Type 0 where
  pub text : Bytes

pub record InlineData : Type 0 where
  pub mime_type : Bytes
  pub payload : Bytes

pub record FunctionCall (J : Type 0) : Type 0 where
  pub name : Bytes
  pub args : J
  pub id : Option Bytes

pub record FunctionCallPart (J : Type 0) : Type 0 where
  pub function_call : FunctionCall J
  pub thought_signature : Option Bytes

pub record FunctionResponse (J : Type 0) : Type 0 where
  pub name : Bytes
  pub response : J
  pub id : Option Bytes

pub record ThoughtPart : Type 0 where
  pub thought : Bool
  pub text : Bytes
  pub thought_signature : Option Bytes

pub data Part (J : Type 0) : Type 0 where
  text : TextPart → Part J
  inline_data : InlineData → Part J
  function_call : FunctionCallPart J → Part J
  function_response : FunctionResponse J → Part J
  thought : ThoughtPart → Part J

pub record Content (J : Type 0) : Type 0 where
  pub role : Bytes
  pub parts : List (Part J)

pub record Candidate (J : Type 0) : Type 0 where
  pub content : Option (Content J)
  pub finish_reason : Option Bytes
  pub safety_ratings : Option (List J)

pub record PromptFeedback (J : Type 0) : Type 0 where
  pub block_reason : Option Bytes
  pub safety_ratings : Option (List J)

pub record UsageMetadata : Type 0 where
  pub prompt_token_count : ℕ
  pub candidates_token_count : ℕ
  pub total_token_count : ℕ
  pub cached_content_token_count : ℕ

-- `code` is an `i32`, kept as its 32 bits.
pub record GoogleError : Type 0 where
  pub code : ℕ
  pub message : Bytes
  pub status : Bytes

pub record GenerateContentResponse (J : Type 0) : Type 0 where
  pub candidates : Option (List (Candidate J))
  pub usage_metadata : Option UsageMetadata
  pub error : Option GoogleError
  pub prompt_feedback : Option (PromptFeedback J)
