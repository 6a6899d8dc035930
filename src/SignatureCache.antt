-- ===== src/SignatureCache.antt =====
-- src/format/signature_cache.rs: the two global caches of thinking signatures. Instants are
-- nanoseconds; `elapsed()` is the truncated difference from one clock reading, `now`, for each call.
pub mod Evict
pub mod Bounds
pub mod Oldest
pub mod Reads
pub mod Invariant
pub use Evict.{Entry, evict_if_needed, is_expired, max_signature_cache_entries}
use agcp.Prelude.{
  ℕ, ◌≤◌, Bool, true, false, ◌||◌, Option, none, some, [], ltb, length, map, if◌then◌else◌,
}
use agcp.Prelude.Text.{Bytes, codes, text_eq, to_ascii_lowercase}
use agcp.Prelude.Map
use agcp.Prelude.Map.{Map}

abbrev pub min_signature_length : ℕ
min_signature_length = 50

pub data ModelFamily : Type 0 where
  claude gemini : ModelFamily

unfoldable pub from_str : Bytes → Option ModelFamily
unfolding to_ascii_lowercase
from_str s =
    let lower = to_ascii_lowercase s in
    if text_eq lower (codes "claude")
    then some claude
    else if text_eq lower (codes "gemini")
    then some gemini
    else none

abbrev pub family_eq : ModelFamily → ModelFamily → Bool
family_eq claude claude = true
family_eq gemini gemini = true
family_eq _ _ = false

-- The two statics behind their locks.
pub record Caches : Type 0 where
  pub tools : Map (Entry Bytes)
  pub thinking : Map (Entry ModelFamily)

abbrev is_empty : Bytes → Bool
is_empty [] = true
is_empty _ = false

unfoldable pub cache_tool_signature : ℕ → Bytes → Bytes → Caches → Caches
cache_tool_signature now tool_use_id signature c =
    if is_empty tool_use_id || is_empty signature
    then c
    else if ltb (length signature) min_signature_length
    then c
    else record c {
      tools =
          Map.insert tool_use_id (record { value = signature; timestamp = now })
            (evict_if_needed now c.tools);
    }

-- A read drops an entry that has expired.
read_entry {ℓ} :
    {A : Type ℓ} → ℕ → Bytes → Option (Entry A) → Map (Entry A) → Map (Entry A) × Option A
read_entry now k none m = (m, none)
read_entry now k (some entry) m =
    if is_expired now entry then (Map.remove k m, none) else (m, some entry.value)

unfoldable pub get_cached_tool_signature : ℕ → Bytes → Caches → Caches × Option Bytes
unfolding read_entry
get_cached_tool_signature now tool_use_id c =
    if is_empty tool_use_id
    then (c, none)
    else let (tools, found) = read_entry now tool_use_id (Map.get tool_use_id c.tools) c.tools in
      (record c { tools = tools }, found)

unfoldable pub cache_thinking_signature : ℕ → Bytes → ModelFamily → Caches → Caches
cache_thinking_signature now signature family c =
    if is_empty signature || ltb (length signature) min_signature_length then c else record c {
      thinking =
          Map.insert signature (record { value = family; timestamp = now })
            (evict_if_needed now c.thinking);
    }

unfoldable pub get_cached_signature_family : ℕ → Bytes → Caches → Caches × Option ModelFamily
unfolding read_entry
get_cached_signature_family now signature c =
    if is_empty signature
    then (c, none)
    else let (thinking, found) =
        read_entry now signature (Map.get signature c.thinking) c.thinking in
      (record c { thinking = thinking }, found)

is_source : ModelFamily → Option ModelFamily → Bool
is_source target none = false
is_source target (some source) = family_eq source target

unfoldable pub is_signature_compatible : ℕ → Bytes → ModelFamily → Caches → Caches × Bool
unfolding is_source get_cached_signature_family
is_signature_compatible now signature target c =
    if family_eq target claude
    then (c, true)
    else let (c', source) = get_cached_signature_family now signature c in
      (c', is_source target source)
