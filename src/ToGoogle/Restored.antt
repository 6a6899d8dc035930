-- ===== src/ToGoogle/Restored.antt =====
-- The signature of a call on its way through the client: out with a stream, and back with the next
-- request. The id of the call is all that the client returns.
use agcp.Prelude.{ℕ, ◌-◌, ◌≤◌, ◌≡◌, ◌≢◌, Option, none, some, List, [], ◌∷◌, arith, length}
use agcp.Prelude.Text.{Bytes}
use agcp.Format.Json.{Json}
use agcp.Format.Anthropic.{ContentBlock, StreamEvent}
use agcp.Format.Google.{Part, FunctionCallPart}
use agcp.SignatureCache.{Caches, ModelFamily, min_signature_length, cache_tool_signature}
use agcp.SignatureCache.Evict.{signature_cache_ttl}
use agcp.SignatureCache.Reads.{get_cached_tool_signature-cache_tool_signature}
use agcp.Sse.Parser.{Externals, State}
use agcp.Sse.Parts.{start_tool, tool_id}
use agcp.ToGoogle.Blocks.{Lookups, tool_signature, convert_content_block}

-- The signature that a part carries.
abbrev pub signature_of : Option (Part Json) → Option Bytes
signature_of (some (Part.function_call fc)) = fc.thought_signature
signature_of _ = none

-- The id that an event hands out with a call.
abbrev pub call_id : {J : Type 0} → List (StreamEvent J) → Option Bytes
call_id (StreamEvent.content_block_start _ (ContentBlock.tool_use id _ _) ∷ _) = some id
call_id _ = none

restored :
    (clock : ℕ → ℕ) (now n : ℕ) (id name signature : Bytes) (input : Json) (c : Caches)
    → id ≢ []
    → min_signature_length ≤ length signature
    → clock n - now ≤ signature_cache_ttl
    → let s : Lookups = record { caches = cache_tool_signature now id signature c; count = n } in
      let (s', part) =
        convert_content_block clock
          (ContentBlock.tool_use id name input)
          (some ModelFamily.gemini)
          s in
      (s'.caches ≡ s.caches) × (signature_of part ≡ some signature)
unfolding convert_content_block tool_signature
restored clock now n id name signature input c h l t =
    let e = get_cached_tool_signature-cache_tool_signature now (clock n) id signature c h l t in
    ground (arith, e)

module _ (ext : Externals) where
  start_tool_caches :
      (now nanos : ℕ) (fc : FunctionCallPart ext.Json) (s : State) (signature : Bytes)
      → fc.thought_signature ≡ some signature
      → min_signature_length ≤ length signature
      → (start_tool ext now nanos fc s).0.caches
        ≡ cache_tool_signature now (tool_id ext fc nanos) signature s.caches
  unfolding start_tool
  start_tool_caches now nanos fc s signature e l = ground (arith, e)

  -- A call that came with a signature of the minimum length goes out under an id. If that id is not
  -- empty, and a request to a Gemini model that holds a call with that id, whatever its name and
  -- its input, is converted with the caches as they are right after the call went out, and within
  -- their lifetime, then the call is sent with the signature it came with, and the caches stay.
  pub convert_content_block-start_tool :
      (clock : ℕ → ℕ) (now nanos n : ℕ) (fc : FunctionCallPart ext.Json) (s : State)
      (id name signature : Bytes) (input : Json)
      → fc.thought_signature ≡ some signature
      → min_signature_length ≤ length signature
      → call_id (start_tool ext now nanos fc s).1 ≡ some id
      → id ≢ []
      → clock n - now ≤ signature_cache_ttl
      → let after : Lookups = record {
        caches = (start_tool ext now nanos fc s).0.caches;
        count = n;
      } in
        let (s', part) =
          convert_content_block clock
            (ContentBlock.tool_use id name input)
            (some ModelFamily.gemini)
            after in
        (s'.caches ≡ after.caches) × (signature_of part ≡ some signature)
  unfolding start_tool
  convert_content_block-start_tool clock now nanos n fc s id name signature input e l i h t =
      let same : tool_id ext fc nanos ≡ id = ground (arith, i) in
      let kept = start_tool_caches now nanos fc s signature e l in
      rw (kept, same) (restored clock now n id name signature input s.caches h l t)
