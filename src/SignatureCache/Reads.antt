-- ===== src/SignatureCache/Reads.antt =====
-- What a read of a signature cache returns.
use agcp.Prelude.{ℕ, ◌-◌, ◌≤◌, ◌≡◌, ◌↔◌, ◌⊎◌, ◌≢◌, true, none, some, [], arith, length}
use agcp.Prelude.Text.{Bytes, text_eq_iff}
use agcp.Prelude.Map.{IsDistinct, get-insert}
use agcp.SignatureCache.Evict.{is_expired, evict_if_needed, signature_cache_ttl}
use agcp.SignatureCache.Oldest.{get-evict_if_needed}
use agcp.SignatureCache.{
  Caches, ModelFamily, claude, gemini, min_signature_length, cache_tool_signature,
  get_cached_tool_signature, cache_thinking_signature, is_signature_compatible,
}

-- A tool signature of the minimum length that was stored under an id that is not empty is read
-- back for as long as the time to live has not passed, and the read changes nothing.
pub get_cached_tool_signature-cache_tool_signature :
    (now later : ℕ) (id signature : Bytes) (c : Caches)
    → id ≢ []
    → min_signature_length ≤ length signature
    → later - now ≤ signature_cache_ttl
    → get_cached_tool_signature later id (cache_tool_signature now id signature c)
      ≡ (cache_tool_signature now id signature c, some signature)
unfolding get_cached_tool_signature cache_tool_signature is_expired
get_cached_tool_signature-cache_tool_signature now later id signature c h1 h2 h3 = ground (
  arith,
  text_eq_iff id id,
  get-insert id id (record { value = signature; timestamp = now }) (evict_if_needed now c.tools),
)

-- Where a store under one id leaves a signature readable under another id, it is the one that was
-- readable before.
get_cached_tool_signature_ne :
    (now later : ℕ) (id other signature : Bytes) (c : Caches)
    → IsDistinct c.tools
    → id ≢ other
    → (get_cached_tool_signature later other (cache_tool_signature now id signature c)).1 ≢ none
    → (get_cached_tool_signature later other (cache_tool_signature now id signature c)).1
      ≡ (get_cached_tool_signature later other c).1
unfolding get_cached_tool_signature cache_tool_signature
get_cached_tool_signature_ne now later id other signature c d h1 h2 = ground (
  arith,
  text_eq_iff id other,
  get-insert id other (record { value = signature; timestamp = now }) (evict_if_needed now c.tools),
  get-evict_if_needed now other c.tools d,
)

-- A Gemini target accepts exactly the signatures of the minimum length whose last known source is
-- Gemini, while that knowledge is fresh; a Claude target accepts every signature.
is_signature_compatible-cache_thinking_signature :
    (now later : ℕ) (signature : Bytes) (source target : ModelFamily) (c : Caches)
    → min_signature_length ≤ length signature
    → ((is_signature_compatible later signature target
          (cache_thinking_signature now signature source c)).1
        ≡ true)
      ↔ ((later - now ≤ signature_cache_ttl) × (source ≡ gemini) ⊎ (target ≡ claude))
unfolding is_signature_compatible cache_thinking_signature is_expired
is_signature_compatible-cache_thinking_signature now later signature source target c h = ground (
  arith,
  text_eq_iff signature signature,
  get-insert signature signature (record { value = source; timestamp = now })
      (evict_if_needed now c.thinking),
)
