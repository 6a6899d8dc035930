-- ===== src/Tests/Stream.antt =====
-- The stream parser on concrete data, over JSON values that are texts.
use agcp.Prelude.{ℕ, ◌∷◌, ◌++◌, ◌+◌, ◌≡◌, refl, true, Option, none, some, List, []}
use agcp.Prelude.Text.{Bytes, codes}
use agcp.Format.Google.{Part, GenerateContentResponse}
use agcp.SignatureCache.{Caches}
use agcp.Sse.Parser.{Externals, new}
use agcp.Sse.Parts.{process_part, process_thought, process_text, process_function_call, start_tool}
use agcp.Sse.Response.{
  process_responses, process_response, respond, convert, start_message, process_parts, finish,
  parts_of, blocked, block_reason_of, first, use_metadata, finish_reason_of,
}
use agcp.Sse.Protocol.{fresh, ended, follow}
use agcp.Sse.Stream.{stream_follows_protocol}
use agcp.Sse.Content.{items, items_in, items-convert}
use agcp.Sse.Feed.{Decoder, Decoded, Feed, feed, boundary}
use agcp.Sse.Chunks.{feed-append, boundary-feed, boundary_mixed}

-- A value is a text, without fields.
abbrev pub texts : Externals
texts = record {
  Json = Bytes;
  get = λ key v. none;
  as_str = some;
  remove_key = λ key v. v;
  empty_object = codes "{}";
  to_string = λ v. v;
  to_uppercase = λ s. s;
}

abbrev pub no_caches : Caches
no_caches = record { tools = []; thinking = [] }

abbrev pub response_of : List (Part Bytes) → Option Bytes → GenerateContentResponse Bytes
response_of parts reason = record {
  candidates = some (
      record {
        content = some (record { role = codes "model"; parts = parts });
        finish_reason = reason;
        safety_ratings = none;
      }
      ∷ []);
  usage_metadata = none;
  error = none;
  prompt_feedback = none;
}

abbrev pub thought : Part Bytes
thought = Part.thought (record {
  thought = true;
  text = codes "hm";
  thought_signature = some (codes "012345678901234567890123456789012345678901234567890123456789");
})

abbrev pub text : Part Bytes
text = Part.text (record { text = codes "Hello" })

abbrev pub call : Part Bytes
call = Part.function_call (record {
  function_call = record { name = codes "ls"; args = codes "{}"; id = none };
  thought_signature = none;
})

abbrev pub clock : ℕ → ℕ × ℕ
clock i = (1000 + i, 2000 + i)

-- A thought, then a text, then a call with the end of the response.
abbrev pub responses : List ((ℕ → ℕ × ℕ) × GenerateContentResponse Bytes)
responses =
    (clock, response_of (thought ∷ []) none)
    ∷ (clock, response_of (text ∷ []) none)
    ∷ (clock, response_of (call ∷ []) (some (codes "STOP")))
    ∷ []

abbrev pub model : Bytes
model = codes "gemini-3-pro"

stream_follows_protocol_example :
    let r = process_responses texts responses (new model 7 no_caches) in
    follow (r.1 ++ finish texts r.0) fresh ≡ some ended
unfolding process_responses process_response respond convert start_message process_parts
    process_part process_thought process_text process_function_call blocked block_reason_of first
    use_metadata finish_reason_of parts_of new start_tool
stream_follows_protocol_example = stream_follows_protocol texts model 7 no_caches responses refl

items-convert_example :
    let candidate = first texts (response_of (thought ∷ text ∷ call ∷ []) none).candidates in
    items (convert texts clock candidate (new model 7 no_caches)).1
    ≡ items_in texts clock 0 (parts_of texts candidate)
items-convert_example =
    items-convert texts clock
      (first texts (response_of (thought ∷ text ∷ call ∷ []) none).candidates)
      (new model 7 no_caches)

-- Every payload decodes to one text.
abbrev decoder : Decoder texts
decoder = record {
  parse_wrapper = λ payload. Decoded.ok (response_of (text ∷ []) none);
  parse_value = λ payload. none;
  parse_direct = λ payload. none;
  pointer = λ path v. none;
}

abbrev start : Feed
start = record { buffer = []; state = new model 7 no_caches; lines = 0 }

boundary-feed_example :
    boundary (feed texts decoder (λ n. clock) (codes "data: {}\n\ndata: {}\n") start).0.buffer
    ≡ none
boundary-feed_example =
    boundary-feed texts decoder (λ n. clock) (codes "data: {}\n\ndata: {}\n") start

feed-append_example :
    let one = feed texts decoder (λ n. clock) (codes "data: {}\n\nda") start in
    feed texts decoder (λ n. clock) (codes "data: {}\n\nda" ++ codes "ta: {}\n\n") start ≡ (
      (feed texts decoder (λ n. clock) (codes "ta: {}\n\n") one.0).0,
      one.1 ++ (feed texts decoder (λ n. clock) (codes "ta: {}\n\n") one.0).1,
    )
feed-append_example =
    feed-append texts decoder (λ n. clock) (codes "data: {}\n\nda") (codes "ta: {}\n\n") start refl

boundary_mixed_example :
    (boundary ((codes "data: 1" ++ (10 ∷ 10 ∷ codes "data: 2")) ++ (13 ∷ 10 ∷ 13 ∷ 10 ∷ []))
      ≡ some (codes "data: 1" ++ (10 ∷ 10 ∷ codes "data: 2"), []))
    × (boundary (codes "data: 1" ++ (10 ∷ 10 ∷ [])) ≡ some (codes "data: 1", []))
boundary_mixed_example = boundary_mixed (codes "data: 1") (codes "data: 2") refl refl refl
