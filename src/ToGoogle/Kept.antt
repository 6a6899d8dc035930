-- ===== src/ToGoogle/Kept.antt =====
-- What a conversion keeps of the messages, and what it does with signatures.
use agcp.Prelude.{
  ℕ, suc, ◌≡◌, refl, Bool, true, false, ◌&&◌, not, Option, none, some, List, [], ◌∷◌, ltb, length,
  arith, ◌∙◌, Option-cases, inl, inr,
}
use agcp.Prelude.Text.{Bytes, is_some}
use agcp.Prelude.Map
use agcp.Prelude.Map.{Map, get-remove}
use agcp.Format.Json.{Json}
use agcp.Format.Anthropic.{ContentBlock}
use agcp.Format.Google.{Part, Content}
use agcp.Format.Requests.{MessageContent, Message}
use agcp.SignatureCache.{
  Caches, Entry, ModelFamily, min_signature_length, get_cached_tool_signature,
  is_signature_compatible, get_cached_signature_family,
}
use agcp.SignatureCache.Evict.{is_expired}
use agcp.Sse.Parser.{is_empty}
use agcp.ToGoogle.Blocks.{
  Lookups, tool_signature, may_keep, convert_content_block, convert_blocks, cons_some,
  convert_content, convert_message, convert_messages,
}

abbrev pub target_is_gemini : Option ModelFamily → Bool
target_is_gemini (some ModelFamily.gemini) = true
target_is_gemini _ = false

-- Each signature in the cache of the tools has a byte at least.
abbrev pub IsSigned : Caches → Type 0
IsSigned c = (id : Bytes) (e : Entry Bytes) → Map.get id c.tools ≡ some e → is_empty e.value ≡ false

-- A call that is signed; a thought without a signature, or with one of the minimum length.
abbrev pub is_signed : Part Json → Bool
is_signed (Part.function_call fc) = elim fc.thought_signature [
  | none ↦ false
  | some s ↦ not (is_empty s)
]
is_signed (Part.thought t) = elim t.thought_signature [
  | none ↦ true
  | some s ↦ not (ltb (length s) min_signature_length)
]
is_signed (Part.text _) = true
is_signed (Part.inline_data _) = true
is_signed (Part.function_response _) = true

abbrev pub all_signed : List (Part Json) → Bool
all_signed [] = true
all_signed (part ∷ parts) = is_signed part && all_signed parts

abbrev found_signed : Option Bytes → Bool
found_signed none = true
found_signed (some s) = not (is_empty s)

get_cached_tool_signature-IsSigned :
    (now : ℕ) (id : Bytes) (c : Caches)
    → IsSigned c
    → let (c', found) = get_cached_tool_signature now id c in
      IsSigned c' × (found_signed found ≡ true)
unfolding get_cached_tool_signature is_expired
get_cached_tool_signature-IsSigned now id c h = elim (Option-cases (Map.get id c.tools)) [
  | inl e ↦ (λ j w g. ground (arith, e, h j w), ground (arith, e))
  | inr (x, e) ↦
      (λ j w g. ground (arith, e, h j w, get-remove id j c.tools), ground (arith, e, h id x e))
]

may_keep-IsSigned :
    (clock : ℕ → ℕ) (signature : Option Bytes) (target : Option ModelFamily) (s : Lookups)
    → (may_keep clock signature target s).0.caches.tools ≡ s.caches.tools
unfolding may_keep is_signature_compatible get_cached_signature_family
may_keep-IsSigned clock none target s = refl
may_keep-IsSigned clock (some signature) none s = refl
may_keep-IsSigned clock (some signature) (some ModelFamily.claude) s = refl
may_keep-IsSigned clock (some signature) (some ModelFamily.gemini) s = ground arith

-- The part of one block, if there is one.
abbrev part_signed : Option (Part Json) → Bool
part_signed none = true
part_signed (some part) = is_signed part

convert_content_block-IsSigned :
    (clock : ℕ → ℕ) (block : ContentBlock Json) (s : Lookups)
    → IsSigned s.caches
    → let (s', part) = convert_content_block clock block (some ModelFamily.gemini) s in
      IsSigned s'.caches × (part_signed part ≡ true)
unfolding convert_content_block tool_signature
convert_content_block-IsSigned clock (ContentBlock.text text _) s h = (h, refl)
convert_content_block-IsSigned clock (ContentBlock.image source) s h = (h, refl)
convert_content_block-IsSigned clock (ContentBlock.document source _) s h = (h, refl)
convert_content_block-IsSigned clock (ContentBlock.tool_result _ _ _) s h = (h, refl)
convert_content_block-IsSigned clock (ContentBlock.tool_use id name input) s h =
    let found = get_cached_tool_signature-IsSigned (clock s.count) id s.caches h in
    (found.0, ground (arith, found.1))
convert_content_block-IsSigned clock (ContentBlock.thinking thinking signature) s h =
    let same = may_keep-IsSigned clock signature (some ModelFamily.gemini) s in
    (λ j e g. h j e (ground (arith, same, g)), ground arith)

cons_signed :
    (part : Option (Part Json)) (parts : List (Part Json))
    → part_signed part ≡ true
    → all_signed parts ≡ true
    → all_signed (cons_some part parts) ≡ true
cons_signed none parts h k = k
cons_signed (some part) parts h k = rw (h, k) refl

cons_length :
    {n : ℕ} (part : Option (Part Json)) (parts : List (Part Json))
    → is_some part ≡ true
    → length parts ≡ n
    → length (cons_some part parts) ≡ suc n
cons_length none parts h k = absurd (ground arith)
cons_length (some part) parts h k = omega (arith, k)

convert_blocks-IsSigned :
    (clock : ℕ → ℕ) (blocks : List (ContentBlock Json)) (s : Lookups)
    → IsSigned s.caches
    → let (s', parts) = convert_blocks clock blocks (some ModelFamily.gemini) s in
      IsSigned s'.caches × (all_signed parts ≡ true)
unfolding convert_blocks
convert_blocks-IsSigned clock [] s h = (h, refl)
convert_blocks-IsSigned clock (block ∷ blocks) s h =
    let (s', part) = convert_content_block clock block (some ModelFamily.gemini) s in
    let one = convert_content_block-IsSigned clock block s h in
    let more = convert_blocks-IsSigned clock blocks s' one.0 in
    (
      more.0,
      cons_signed part (convert_blocks clock blocks (some ModelFamily.gemini) s').1 one.1 more.1,
    )

convert_content-IsSigned :
    (clock : ℕ → ℕ) (content : MessageContent) (s : Lookups)
    → IsSigned s.caches
    → let (s', parts) = convert_content clock content (some ModelFamily.gemini) s in
      IsSigned s'.caches × (all_signed parts ≡ true)
unfolding convert_content
convert_content-IsSigned clock (MessageContent.plain text) s h = (h, refl)
convert_content-IsSigned clock (MessageContent.blocks blocks) s h =
    convert_blocks-IsSigned clock blocks s h

abbrev pub all_contents_signed : List (Content Json) → Bool
all_contents_signed [] = true
all_contents_signed (content ∷ contents) = all_signed content.parts && all_contents_signed contents

-- In a request to Gemini every call carries a signature that is not empty, and every thought has
-- one of the minimum length or none, if the signatures in the cache of the tools are not empty.
pub convert_messages-IsSigned :
    (clock : ℕ → ℕ) (messages : List Message) (s : Lookups)
    → IsSigned s.caches
    → let (s', contents) = convert_messages clock messages (some ModelFamily.gemini) s in
      IsSigned s'.caches × (all_contents_signed contents ≡ true)
unfolding convert_messages convert_message
convert_messages-IsSigned clock [] s h = (h, refl)
convert_messages-IsSigned clock (message ∷ messages) s h =
    let one = convert_content-IsSigned clock message.content s h in
    let s' = (convert_content clock message.content (some ModelFamily.gemini) s).0 in
    let more = convert_messages-IsSigned clock messages s' one.0 in
    (more.0, ground (arith, one.1, more.1))

-- Which blocks have a part: all but thoughts whose signature the target does not accept.
may_keep_other :
    (clock : ℕ → ℕ) (signature : Option Bytes) (target : Option ModelFamily) (s : Lookups)
    → target_is_gemini target ≡ false
    → ((may_keep clock signature target s).1 ≡ true)
      × ((may_keep clock signature target s).0.caches ≡ s.caches)
unfolding may_keep is_signature_compatible
may_keep_other clock none target s h = (refl, refl)
may_keep_other clock (some signature) none s h = (refl, refl)
may_keep_other clock (some signature) (some ModelFamily.claude) s h = (refl, refl)
may_keep_other clock (some signature) (some ModelFamily.gemini) s h = absurd (ground arith)

convert_content_block_other :
    (clock : ℕ → ℕ) (block : ContentBlock Json) (target : Option ModelFamily) (s : Lookups)
    → target_is_gemini target ≡ false
    → let (s', part) = convert_content_block clock block target s in
      (s'.caches ≡ s.caches) × (is_some part ≡ true)
unfolding convert_content_block tool_signature
convert_content_block_other clock (ContentBlock.text text _) target s h = (refl, refl)
convert_content_block_other clock (ContentBlock.image source) target s h = (refl, refl)
convert_content_block_other clock (ContentBlock.document source _) target s h = (refl, refl)
convert_content_block_other clock (ContentBlock.tool_result _ _ _) target s h = (refl, refl)
convert_content_block_other clock (ContentBlock.tool_use id name input) none s h = (refl, refl)
convert_content_block_other clock (ContentBlock.tool_use id name input) (some ModelFamily.claude) s
      h =
    (refl, refl)
convert_content_block_other clock (ContentBlock.tool_use id name input) (some ModelFamily.gemini) s
      h =
    absurd (ground arith)
convert_content_block_other clock (ContentBlock.thinking thinking signature) target s h =
    let kept = may_keep_other clock signature target s h in (kept.1, ground (arith, kept.0))

-- A request to any other family keeps each block of a message as one part, and leaves the caches
-- as they are.
convert_blocks-length :
    (clock : ℕ → ℕ) (blocks : List (ContentBlock Json)) (target : Option ModelFamily) (s : Lookups)
    → target_is_gemini target ≡ false
    → let (s', parts) = convert_blocks clock blocks target s in
      (s'.caches ≡ s.caches) × (length parts ≡ length blocks)
unfolding convert_blocks
convert_blocks-length clock [] target s h = (refl, refl)
convert_blocks-length clock (block ∷ blocks) target s h =
    let (s', part) = convert_content_block clock block target s in
    let one = convert_content_block_other clock block target s h in
    let more = convert_blocks-length clock blocks target s' h in
    (more.0 ∙ one.0, cons_length part (convert_blocks clock blocks target s').1 one.1 more.1)
