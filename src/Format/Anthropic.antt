-- ===== src/Format/Anthropic.antt =====
-- The stream events of src/format/anthropic.rs. `J` is the type of JSON values, a library's.
use agcp.Prelude.{ℕ, Bool, Option, none, List}
use agcp.Prelude.Text.{Bytes}

pub record ImageSource : Type 0 where
  pub source_type : Bytes
  pub media_type : Bytes
  pub payload : Bytes

pub record DocumentSource : Type 0 where
  pub source_type : Bytes
  pub media_type : Bytes
  pub payload : Bytes

mutual
  pub data ContentBlock (J : Type 0) : Type 0 where
    text : Bytes → Option J → ContentBlock J
    image : ImageSource → ContentBlock J
    document : DocumentSource → Option J → ContentBlock J
    tool_use : Bytes → Bytes → J → ContentBlock J
    tool_result : Bytes → ToolResultContent J → Option Bool → ContentBlock J
    thinking : Bytes → Option Bytes → ContentBlock J

  pub data ToolResultContent (J : Type 0) : Type 0 where
    plain : Bytes → ToolResultContent J
    blocks : ContentBlocks J → ToolResultContent J

  -- `Vec<ContentBlock>`
  pub data ContentBlocks (J : Type 0) : Type 0 where
    nil : ContentBlocks J
    cons : ContentBlock J → ContentBlocks J → ContentBlocks J

pub data Role : Type 0 where
  user assistant : Role

pub data StopReason : Type 0 where
  end_turn max_tokens stop_sequence tool_use : StopReason

pub record Usage : Type 0 where
  pub input_tokens : ℕ
  pub output_tokens : ℕ
  pub cache_creation_input_tokens : Option ℕ
  pub cache_read_input_tokens : Option ℕ

pub data ContentDelta : Type 0 where
  text : Bytes → ContentDelta
  thinking : Bytes → ContentDelta
  input_json : Bytes → ContentDelta
  signature : Bytes → ContentDelta

pub record MessageStart (J : Type 0) : Type 0 where
  pub id : Bytes
  pub message_type : Bytes
  pub role : Role
  pub content : List (ContentBlock J)
  pub model : Bytes
  pub stop_reason : Option StopReason
  pub stop_sequence : Option Bytes
  pub usage : Usage

pub record MessageDeltaData : Type 0 where
  pub stop_reason : Option StopReason
  pub stop_sequence : Option Bytes

pub record MessageDeltaUsage : Type 0 where
  pub output_tokens : ℕ

pub record ErrorData : Type 0 where
  pub error_type : Bytes
  pub message : Bytes

pub data StreamEvent (J : Type 0) : Type 0 where
  message_start : MessageStart J → StreamEvent J
  content_block_start : ℕ → ContentBlock J → StreamEvent J
  content_block_delta : ℕ → ContentDelta → StreamEvent J
  content_block_stop : ℕ → StreamEvent J
  message_delta : MessageDeltaData → MessageDeltaUsage → StreamEvent J
  message_stop : StreamEvent J
  ping : StreamEvent J
  error : ErrorData → StreamEvent J

pub record MessagesResponse (J : Type 0) : Type 0 where
  pub id : Bytes
  pub response_type : Bytes
  pub role : Role
  pub content : List (ContentBlock J)
  pub model : Bytes
  pub stop_reason : Option StopReason
  pub stop_sequence : Option Bytes
  pub usage : Usage

-- `Usage::default()`
abbrev pub no_usage : Usage
no_usage = record {
  input_tokens = 0;
  output_tokens = 0;
  cache_creation_input_tokens = none;
  cache_read_input_tokens = none;
}
