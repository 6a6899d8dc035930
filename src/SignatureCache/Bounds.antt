-- ===== src/SignatureCache/Bounds.antt =====
-- How `evict_if_needed` bounds a signature cache, and which entries it drops.
use agcp.Prelude.{
  ℕ, ◌+◌, ◌-◌, ◌≤◌, ◌<◌, ◌≡◌, refl, Bool, true, not, none, List, [], ◌∷◌, arith, length, take, map,
  filter, length-take,
}
use agcp.Prelude.Text.{Bytes, text_eq_iff, is_some}
use agcp.Prelude.Map
use agcp.Prelude.Map.{Map, IsDistinct, get-remove, length-remove_some, remove-IsDistinct}
use agcp.SignatureCache.Evict.{
  Entry, is_expired, evict_if_needed, remove_all, remove_oldest, max_signature_cache_entries,
}
use agcp.SignatureCache.Evict.Sorted.{
  has, IsFresh, sort_by_key, has-sort_by_key, sort_by_key-IsFresh, length-sort_by_key, has-take,
  take-IsFresh,
}

module _ {ℓ} {A : Type ℓ} where
  abbrev pub stamps : Map (Entry A) → List (Bytes × ℕ)
  stamps = map (λ e. (e.0, e.1.timestamp))

  pub has-stamps : (k : Bytes) (m : Map (Entry A)) → has k (stamps m) ≡ is_some (Map.get k m)
  unfolding Map.get
  has-stamps k [] = refl
  has-stamps k ((j, e) ∷ m) = ground (arith, has-stamps k m)

  pub stamps-IsFresh : (m : Map (Entry A)) → IsDistinct m → IsFresh (stamps m)
  stamps-IsFresh [] d = tt
  stamps-IsFresh ((j, e) ∷ m) d = ground (arith, has-stamps j m, stamps-IsFresh m d.1)

  length-stamps : (m : Map (Entry A)) → length (stamps m) ≡ length m
  length-stamps [] = refl
  length-stamps (e ∷ m) = omega (arith, length-stamps m)

  -- Each removal of a key that is there takes one entry away.
  length-remove_all :
      (l : List (Bytes × ℕ)) (m : Map (Entry A))
      → IsFresh l
      → IsDistinct m
      → ((k : Bytes) → has k l ≡ true → is_some (Map.get k m) ≡ true)
      → length (remove_all l m) + length l ≡ length m
  unfolding remove_all
  length-remove_all [] m f d h = omega arith
  length-remove_all ((k, t) ∷ l) m f d h =
      let here : is_some (Map.get k m) ≡ true = h k (ground (arith, text_eq_iff k k)) in
      let ih : length (remove_all l (Map.remove k m)) + length l ≡ length (Map.remove k m) =
        length-remove_all l (Map.remove k m) f.1 (remove-IsDistinct k m d)
          (λ j p. ground (arith, get-remove k j m, h j, text_eq_iff k j)) in
      omega (arith, ih, length-remove_some k m d here)

  remove_all-IsDistinct :
      (l : List (Bytes × ℕ)) (m : Map (Entry A)) → IsDistinct m → IsDistinct (remove_all l m)
  unfolding remove_all
  remove_all-IsDistinct [] m d = d
  remove_all-IsDistinct ((k, t) ∷ l) m d =
      remove_all-IsDistinct l (Map.remove k m) (remove-IsDistinct k m d)

  pub get_filter_absent :
      (k : Bytes) (p : Bytes × Entry A → Bool) (m : Map (Entry A))
      → Map.get k m ≡ none
      → Map.get k (filter p m) ≡ none
  unfolding Map.get
  get_filter_absent k p [] h = refl
  get_filter_absent k p ((j, e) ∷ m) h = ground (arith, get_filter_absent k p m)

  pub filter-IsDistinct :
      (p : Bytes × Entry A → Bool) (m : Map (Entry A)) → IsDistinct m → IsDistinct (filter p m)
  filter-IsDistinct p [] d = d
  filter-IsDistinct p ((j, e) ∷ m) d =
      ground (arith, filter-IsDistinct p m, get_filter_absent j p m)

  -- From a cache at or over its limit, half the limit is left.
  length-remove_oldest :
      (m : Map (Entry A))
      → IsDistinct m
      → max_signature_cache_entries ≤ length m
      → length (remove_oldest m) ≡ 500
  unfolding remove_oldest
  length-remove_oldest m d h =
      let n = length m - 500 in
      let l = sort_by_key (stamps m) in
      omega (
        arith,
        length-take n l (omega (arith, length-sort_by_key (stamps m), length-stamps m)),
        length-remove_all (take n l) m
            (take-IsFresh n l (sort_by_key-IsFresh (stamps m) (stamps-IsFresh m d))) d
            (λ k p. ground (arith, has-take k n l, has-sort_by_key k (stamps m), has-stamps k m)),
      )

  -- An eviction leaves a cache below its limit.
  pub length-evict_if_needed :
      (now : ℕ) (m : Map (Entry A))
      → IsDistinct m
      → length (evict_if_needed now m) < max_signature_cache_entries
  unfolding evict_if_needed
  length-evict_if_needed now m d =
      let kept = filter (λ e. not (is_expired now e.1)) m in
      ground (arith, length-remove_oldest kept (filter-IsDistinct _ m d))

  pub evict_if_needed-IsDistinct :
      (now : ℕ) (m : Map (Entry A)) → IsDistinct m → IsDistinct (evict_if_needed now m)
  unfolding evict_if_needed
  evict_if_needed-IsDistinct now m d =
      let kept = filter (λ e. not (is_expired now e.1)) m in
      ground (
        arith,
        filter-IsDistinct (λ e. not (is_expired now e.1)) m,
        remove_all-IsDistinct (take (length kept - 500) (sort_by_key (stamps kept))) kept,
      )
