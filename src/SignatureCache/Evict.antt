-- ===== src/SignatureCache/Evict.antt =====
-- `evict_if_needed` of src/format/signature_cache.rs, over one cache.
pub mod Sorted
use agcp.Prelude.{
  ℕ, ◌-◌, ◌/◌, ◌*◌, Bool, not, List, [], ◌∷◌, ltb, leb, length, take, map, filter, if◌then◌else◌,
}
use agcp.Prelude.Text.{Bytes}
use agcp.Prelude.Map
use agcp.Prelude.Map.{Map}
use Sorted.{sort_by_key}

abbrev pub max_signature_cache_entries : ℕ
max_signature_cache_entries = 1000

abbrev pub signature_cache_ttl : ℕ
signature_cache_ttl = 2 * 60 * 60 * 1_000_000_000

pub record Entry {ℓ} (A : Type ℓ) : Type ℓ where
  pub value : A
  pub timestamp : ℕ

module _ {ℓ} {A : Type ℓ} where
  unfoldable pub is_expired : ℕ → Entry A → Bool
  is_expired now e = ltb signature_cache_ttl (now - e.timestamp)

  -- `for (key, _) in entries { cache.remove(&key); }`
  unfoldable pub remove_all : List (Bytes × ℕ) → Map (Entry A) → Map (Entry A)
  remove_all [] m = m
  remove_all ((k, _) ∷ l) m = remove_all l (Map.remove k m)

  unfoldable pub remove_oldest : Map (Entry A) → Map (Entry A)
  unfolding remove_all sort_by_key
  remove_oldest m =
      let to_remove = length m - max_signature_cache_entries / 2 in
      remove_all (take to_remove (sort_by_key (map (λ e. (e.0, e.1.timestamp)) m))) m

  unfoldable pub evict_if_needed : ℕ → Map (Entry A) → Map (Entry A)
  unfolding remove_oldest is_expired
  evict_if_needed now m =
      if ltb (length m) max_signature_cache_entries
      then m
      else let kept = filter (λ e. not (is_expired now e.1)) m in
        if leb max_signature_cache_entries (length kept) then remove_oldest kept else kept
