-- ===== src/Sse/Parser.antt =====
-- The parser's state and what it needs of other libraries.
use agcp.Prelude.{
  ℕ, zero, suc, ◌+◌, ◌-◌, ◌/◌, ◌%◌, Bool, true, false, Option, none, some, [], ◌∷◌, ◌++◌, ltb, leb,
  length, if◌then◌else◌,
}
use agcp.Prelude.Text.{Bytes, codes}
use agcp.Models.Family.{get_model_family}
use agcp.SignatureCache
use agcp.SignatureCache.{Caches, ModelFamily, claude, min_signature_length}

-- What the parser uses of serde_json (the values, and reading and printing them) and of the
-- Unicode tables.
pub record Externals : Type 1 where
  pub Json : Type 0
  pub get : Bytes → Json → Option Json
  pub as_str : Json → Option Bytes
  -- `obj.remove(key)` on an object; any other value is as it was
  pub remove_key : Bytes → Json → Json
  -- `Value::Object(Map::new())`
  pub empty_object : Json
  -- `to_string(v).unwrap_or_default()`
  pub to_string : Json → Bytes
  -- `str::to_uppercase`
  pub to_uppercase : Bytes → Bytes

pub data BlockType : Type 0 where
  text thinking tool_use : BlockType

-- The fields of the parser but `buffer`, which only `feed` uses.
pub record SseParser : Type 0 where
  pub model : Bytes
  pub message_id : Bytes
  pub has_emitted_start : Bool
  pub block_index : ℕ
  pub current_block_type : Option BlockType
  pub current_thinking_signature : Bytes
  pub input_tokens : ℕ
  pub output_tokens : ℕ
  pub cache_read_tokens : ℕ
  pub stop_reason : Option Bytes
  pub last_raw_data : Bytes

-- The parser beside the global signature caches that it writes to.
pub record State : Type 0 where
  pub parser : SseParser
  pub open parser use *
  pub caches : Caches

hex_digit : ℕ → ℕ
hex_digit d = if ltb d 10 then b'0' + d else b'a' + (d - 10)

-- The lowercase hexadecimal digits of a number; an `u128` has 32 at most.
hex : ℕ → ℕ → Bytes
hex zero n = []
hex (suc fuel) n =
    let front = hex fuel (n / 16) in
    if ltb n 16 then hex_digit n ∷ [] else front ++ hex_digit (n % 16) ∷ []

zeros : ℕ → Bytes → Bytes
zeros zero s = s
zeros (suc n) s = b'0' ∷ zeros n s

-- `{:0width$x}` of an `u128`
unfoldable pub hex_padded : ℕ → ℕ → Bytes
unfolding hex hex_digit zeros
hex_padded width n = let digits = hex 32 n in zeros (width - length digits) digits

-- `SseParser::new`, beside the caches as they are.
unfoldable pub new : Bytes → ℕ → Caches → State
unfolding hex_padded
new model nanos caches = record {
  parser = record {
    model = model;
    message_id = codes "msg_" ++ hex_padded 32 nanos;
    has_emitted_start = false;
    block_index = 0;
    current_block_type = none;
    current_thinking_signature = [];
    input_tokens = 0;
    output_tokens = 0;
    cache_read_tokens = 0;
    stop_reason = none;
    last_raw_data = [];
  };
  caches = caches;
}

abbrev pub block_type_eq : BlockType → BlockType → Bool
block_type_eq text text = true
block_type_eq thinking thinking = true
block_type_eq tool_use tool_use = true
block_type_eq _ _ = false

abbrev pub is_type : Option BlockType → BlockType → Bool
is_type none t = false
is_type (some u) t = block_type_eq u t

abbrev pub is_empty : Bytes → Bool
is_empty [] = true
is_empty (b ∷ s) = false

-- `.as_deref().unwrap_or("")`
abbrev pub or_empty : Option Bytes → Bytes
or_empty none = []
or_empty (some s) = s

abbrev pub long_enough : Bytes → Bool
long_enough signature = leb min_signature_length (length signature)

-- `ModelFamily::from_str(get_model_family(model)).unwrap_or(Claude)`
family_or_claude : Option ModelFamily → ModelFamily
family_or_claude none = claude
family_or_claude (some f) = f

unfoldable pub family_of : Bytes → ModelFamily
unfolding family_or_claude
family_of model = family_or_claude (SignatureCache.from_str (get_model_family model))

-- Updates of the parser's fields.
abbrev pub enter : BlockType → State → State
enter t s = record s { parser = record s.parser { current_block_type = some t } }

abbrev pub set_signature : Bytes → State → State
set_signature v s = record s { parser = record s.parser { current_thinking_signature = v } }
