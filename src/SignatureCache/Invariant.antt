-- ===== src/SignatureCache/Invariant.antt =====
-- Both caches stay bounded, whatever calls reach them.
use agcp.Prelude.{ℕ, ◌≤◌, List, [], ◌∷◌, arith, length}
use agcp.Prelude.Text.{Bytes}
use agcp.Prelude.Map
use agcp.Prelude.Map.{
  Map, IsDistinct, insert-IsDistinct, length-insert-le, remove-IsDistinct, length-remove-le,
}
use agcp.SignatureCache.Bounds.{length-evict_if_needed, evict_if_needed-IsDistinct}
use agcp.SignatureCache.Evict.{Entry, evict_if_needed, max_signature_cache_entries}
use agcp.SignatureCache.{
  Caches, ModelFamily, cache_tool_signature, get_cached_tool_signature, cache_thinking_signature,
  get_cached_signature_family, is_signature_compatible,
}

-- A call of the module, by the name of its function.
pub data Call : Type 0 where
  cache_tool : Bytes → Bytes → Call
  get_tool : Bytes → Call
  cache_thinking : Bytes → ModelFamily → Call
  get_family : Bytes → Call
  compatible : Bytes → ModelFamily → Call

unfoldable pub apply : ℕ → Call → Caches → Caches
unfolding cache_tool_signature get_cached_tool_signature cache_thinking_signature
    is_signature_compatible
apply now (cache_tool id signature) c = cache_tool_signature now id signature c
apply now (get_tool id) c = (get_cached_tool_signature now id c).0
apply now (cache_thinking signature family) c = cache_thinking_signature now signature family c
apply now (get_family signature) c = (get_cached_signature_family now signature c).0
apply now (compatible signature target) c = (is_signature_compatible now signature target c).0

-- The calls in the order in which they take the locks, each with its clock reading.
unfoldable pub run : List (ℕ × Call) → Caches → Caches
unfolding apply
run [] c = c
run ((now, call) ∷ calls) c = run calls (apply now call c)

abbrev pub IsBoundedMap {ℓ} : {A : Type ℓ} → Map (Entry A) → Type ℓ
IsBoundedMap m = IsDistinct m × (length m ≤ max_signature_cache_entries)

pub record IsBounded (c : Caches) : Type 0 where
  pub tools : IsBoundedMap c.tools
  pub thinking : IsBoundedMap c.thinking

module _ {ℓ} {A : Type ℓ} where
  store-IsBoundedMap :
      (now : ℕ) (k : Bytes) (e : Entry A) (m : Map (Entry A))
      → IsBoundedMap m
      → IsBoundedMap (Map.insert k e (evict_if_needed now m))
  store-IsBoundedMap now k e m h =
      let d = evict_if_needed-IsDistinct now m h.0 in
      (
        insert-IsDistinct k e (evict_if_needed now m) d,
        omega
            (arith, length-insert-le k e (evict_if_needed now m), length-evict_if_needed now m h.0),
      )

  remove-IsBoundedMap :
      (k : Bytes) (m : Map (Entry A)) → IsBoundedMap m → IsBoundedMap (Map.remove k m)
  remove-IsBoundedMap k m h = (remove-IsDistinct k m h.0, omega (arith, length-remove-le k m))

apply-IsBounded : (now : ℕ) (call : Call) (c : Caches) → IsBounded c → IsBounded (apply now call c)
unfolding apply
apply-IsBounded now (cache_tool id signature) c h = ground (
  arith,
  store-IsBoundedMap now id (record { value = signature; timestamp = now }) c.tools h.tools,
)
apply-IsBounded now (get_tool id) c h = ground (arith, remove-IsBoundedMap id c.tools h.tools)
apply-IsBounded now (cache_thinking signature family) c h = ground (
  arith,
  store-IsBoundedMap now signature (record { value = family; timestamp = now }) c.thinking
      h.thinking,
)
apply-IsBounded now (get_family signature) c h =
    ground (arith, remove-IsBoundedMap signature c.thinking h.thinking)
apply-IsBounded now (compatible signature target) c h =
    ground (arith, remove-IsBoundedMap signature c.thinking h.thinking)

-- From caches within their limits, no sequence of calls leaves one with more entries than the
-- maximum or a key twice.
pub run-IsBounded : (calls : List (ℕ × Call)) (c : Caches) → IsBounded c → IsBounded (run calls c)
unfolding run
run-IsBounded [] c h = h
run-IsBounded ((now, call) ∷ calls) c h =
    run-IsBounded calls (apply now call c) (apply-IsBounded now call c h)
