-- ===== src/Sse/Feed.antt =====
-- `parse_line` and `feed`: from bytes to lines to responses.
use agcp.Prelude.{ℕ, zero, suc, ◌+◌, Option, none, some, List, [], ◌∷◌, ◌++◌, length, if◌then◌else◌}
use agcp.Prelude.Text.{Bytes, codes, text_eq, strip_prefix, split_on}
use agcp.Prelude.Text.Trim.{trim, take_chars}
use agcp.Format.Anthropic.{StreamEvent, message_stop}
use agcp.Format.Google.{GenerateContentResponse, GoogleError}
use agcp.Sse.Parser.{Externals, State}
use agcp.Sse.Parts.{Emit, str_in}
use agcp.Sse.Response.{error_event, process_response}

-- What serde_json makes of a text: a value of the type, or the text of its error.
pub data Decoded (A : Type 0) : Type 0 where
  ok : A → Decoded A
  err : Bytes → Decoded A

pub record Decoder (ext : Externals) : Type 0 where
  -- `from_str::<CloudCodeResponse>`, and its `response`
  pub parse_wrapper : Bytes → Decoded (GenerateContentResponse ext.Json)
  -- `from_str::<Value>`
  pub parse_value : Bytes → Option ext.Json
  -- `from_str::<GenerateContentResponse>`
  pub parse_direct : Bytes → Option (GenerateContentResponse ext.Json)
  pub pointer : Bytes → ext.Json → Option ext.Json

str_or : Bytes → Option Bytes → Bytes
str_or d none = d
str_or d (some s) = s

module _ (ext : Externals) (dec : Decoder ext) where
  open ext use {Json, get}
  open dec use {parse_wrapper, parse_value, parse_direct, pointer}

  -- What a line holds: nothing to report, an error to report, or a response to convert.
  pub data Reading : Type 0 where
    skip : Reading
    report : Bytes → Reading
    response : GenerateContentResponse Json → Reading

  google_error : Bytes → Bytes → Bytes
  google_error status message = codes "Google API error (" ++ (status ++ (codes "): " ++ message))

  -- The value has a "response" key and does not decode.
  unparseable : Bytes → Bytes → Option Json → Bytes
  unfolding str_or
  unparseable payload wrapper_err found =
      str_or
        (codes "Failed to parse CloudCodeResponse ("
          ++ (wrapper_err ++ (codes "). Raw: " ++ take_chars 300 payload)))
        (str_in ext found)

  field_or : Bytes → Bytes → Json → Bytes
  unfolding str_or
  field_or key d v = str_or d (str_in ext (get key v))

  read_direct : Option (GenerateContentResponse Json) → Reading
  read_direct none = skip
  read_direct (some r) = response r

  -- "Check for top-level error responses"
  read_error : Bytes → Option Json → Reading
  unfolding read_direct field_or google_error
  read_error payload none = read_direct (parse_direct payload)
  read_error payload (some e) = report (
      google_error (field_or (codes "status") (codes "UNKNOWN") e)
        (field_or (codes "message") (codes "Unknown error") e))

  -- "check if the JSON has a response key"
  read_key : Bytes → Bytes → Json → Option Json → Reading
  unfolding read_error unparseable
  read_key payload wrapper_err raw none = read_error payload (get (codes "error") raw)
  read_key payload wrapper_err raw (some _) = report (
      unparseable payload wrapper_err
        (pointer (codes "/response/candidates/0/content/parts/0/text") raw))

  read_raw : Bytes → Bytes → Option Json → Reading
  unfolding read_key
  read_raw payload wrapper_err none = read_direct (parse_direct payload)
  read_raw payload wrapper_err (some raw) =
      read_key payload wrapper_err raw (get (codes "response") raw)

  read_decoded : Bytes → Decoded (GenerateContentResponse Json) → Reading
  unfolding read_raw
  read_decoded payload (ok r) = response r
  read_decoded payload (err wrapper_err) = read_raw payload wrapper_err (parse_value payload)

  unfoldable pub read : Bytes → Reading
  unfolding read_decoded
  read payload = read_decoded payload (parse_wrapper payload)

  convert_checked :
      (ℕ → ℕ × ℕ) → GenerateContentResponse Json → Option GoogleError → State → Emit ext
  convert_checked clock r none s = process_response ext clock r s
  convert_checked clock r (some e) s =
      (s, error_event ext (codes "api_error") (google_error e.status e.message) ∷ [])

  on_reading : (ℕ → ℕ × ℕ) → Reading → State → Emit ext
  unfolding convert_checked google_error
  on_reading clock skip s = (s, [])
  on_reading clock (report message) s = (s, error_event ext (codes "api_error") message ∷ [])
  on_reading clock (response r) s = convert_checked clock r r.error s

  on_payload : (ℕ → ℕ × ℕ) → Bytes → State → Emit ext
  unfolding on_reading
  on_payload clock payload s =
      if text_eq payload (codes "[DONE]")
      then (s, message_stop ∷ [])
      else on_reading clock (read payload)
          (record s { parser = record s.parser { last_raw_data = take_chars 500 payload } })

  -- The payload of a line, if it has one.
  unfoldable pub payload_of : Bytes → Option Bytes
  payload_of line = elim (strip_prefix line (codes "data: ")) [
    | some stripped ↦ some (trim stripped)
    | none ↦ elim (strip_prefix line (codes "data:")) [
      | some stripped ↦ some (trim stripped)
      | none ↦ none
    ]
  ]

  line_events : (ℕ → ℕ × ℕ) → Option Bytes → State → Emit ext
  unfolding on_payload
  line_events clock none s = (s, [])
  line_events clock (some payload) s = on_payload clock payload s

  -- A line that yields `None` and one that yields no events are alike to `feed`.
  unfoldable pub parse_line : (ℕ → ℕ × ℕ) → Bytes → State → Emit ext
  unfolding line_events payload_of
  parse_line clock line s = line_events clock (payload_of line) s

-- The parser with its buffer, and the number of lines parsed so far, by which the clock is read.
pub record Feed : Type 0 where
  pub buffer : Bytes
  pub state : State
  pub lines : ℕ

or_else : Option (Bytes × Bytes) → Option (Bytes × Bytes) → Option (Bytes × Bytes)
or_else none o = o
or_else (some b) o = some b

-- The next event boundary: the text before it, and the text behind it.
unfoldable pub boundary : Bytes → Option (Bytes × Bytes)
unfolding or_else
boundary buffer =
    or_else (split_on (13 ∷ 10 ∷ 13 ∷ 10 ∷ []) buffer) (split_on (10 ∷ 10 ∷ []) buffer)

module _ (ext : Externals) (dec : Decoder ext) (clocks : ℕ → ℕ → ℕ × ℕ) where
  open ext use {Json}

  abbrev pub Fed : Type 0
  Fed = Feed × List (StreamEvent Json)

  -- One line taken off the buffer.
  unfoldable pub take_line : Bytes → Bytes → Feed → Fed
  take_line line rest f =
      let (s, events) = parse_line ext dec (clocks f.lines) line f.state in
      (record { buffer = rest; state = s; lines = f.lines + 1 }, events)

  -- The loop of `feed`. A round takes a delimiter off the buffer, so its length is fuel enough.
  unfoldable pub drain : ℕ → Feed → Fed
  drain zero f = (f, [])
  drain (suc fuel) f = elim (boundary f.buffer) [
    | none ↦ (f, [])
    | some (line, rest) ↦
        let (f', events) = take_line line rest f in
        let (f'', more) = drain fuel f' in (f'', events ++ more)
  ]

  unfoldable pub feed : Bytes → Feed → Fed
  feed chunk f = drain (length (f.buffer ++ chunk)) (record f { buffer = f.buffer ++ chunk })
