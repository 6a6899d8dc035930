-- ===== src/SignatureCache/Oldest.antt =====
-- Which entries an eviction over the limit drops: the oldest ones.
use agcp.Prelude.{
  ℕ, zero, suc, ◌-◌, ◌≤◌, ◌≡◌, refl, sym, ◌∙◌, ◌⊎◌, inl, inr, Option-cases, Bool, true, false, not,
  Option, none, some, List, [], ◌∷◌, arith, length, filter, take, if◌then◌else◌,
}
use agcp.Prelude.Text.{Bytes, text_eq, text_eq_iff}
use agcp.Prelude.Map
use agcp.Prelude.Map.{Map, IsDistinct, get-remove}
use agcp.SignatureCache.Evict.{
  Entry, is_expired, evict_if_needed, remove_all, remove_oldest, max_signature_cache_entries,
}
use agcp.SignatureCache.Evict.Sorted.{
  has, IsFresh, AtLeast, IsSorted, insert_by_key, sort_by_key, has-sort_by_key,
  sort_by_key-IsSorted,
}
use agcp.SignatureCache.Bounds.{stamps, stamps-IsFresh, get_filter_absent, filter-IsDistinct}

-- The timestamp under a key.
stamp_of : Bytes → List (Bytes × ℕ) → Option ℕ
stamp_of k [] = none
stamp_of k (e ∷ l) = let rest = stamp_of k l in if text_eq e.0 k then some e.1 else rest

stamp_of-insert_by_key :
    (k : Bytes) (e : Bytes × ℕ) (l : List (Bytes × ℕ))
    → has e.0 l ≡ false
    → stamp_of k (insert_by_key e l) ≡ (if text_eq e.0 k then some e.1 else stamp_of k l)
unfolding stamp_of insert_by_key
stamp_of-insert_by_key k e [] h = ground arith
stamp_of-insert_by_key k e (f ∷ l) h =
    ground (
      arith,
      stamp_of-insert_by_key k e l,
      text_eq_iff e.0 k,
      text_eq_iff f.0 k,
      text_eq_iff f.0 e.0,
    )

stamp_of-sort_by_key :
    (k : Bytes) (l : List (Bytes × ℕ)) → IsFresh l → stamp_of k (sort_by_key l) ≡ stamp_of k l
unfolding stamp_of sort_by_key
stamp_of-sort_by_key k [] d = refl
stamp_of-sort_by_key k (e ∷ l) d = ground (
  arith,
  stamp_of-insert_by_key k e (sort_by_key l),
  has-sort_by_key e.0 l,
  stamp_of-sort_by_key k l,
)

stamp_of-AtLeast :
    (a t : ℕ) (k : Bytes) (l : List (Bytes × ℕ)) → AtLeast a l → stamp_of k l ≡ some t → a ≤ t
unfolding stamp_of
stamp_of-AtLeast a t k [] h p = absurd (ground arith)
stamp_of-AtLeast a t k (e ∷ l) h p = ground (arith, stamp_of-AtLeast a t k l)

-- In a sorted list, what stands among the first `n` is no younger than what does not.
taken-le-left :
    (n : ℕ) (j k : Bytes) (l : List (Bytes × ℕ)) (s t : ℕ)
    → IsSorted l
    → has k (take n l) ≡ true
    → has j (take n l) ≡ false
    → stamp_of k l ≡ some s
    → stamp_of j l ≡ some t
    → s ≤ t
unfolding stamp_of
taken-le-left zero j k l s t o hk hj p q = absurd (ground arith)
taken-le-left (suc n) j k [] s t o hk hj p q = absurd (ground arith)
taken-le-left (suc n) j k (e ∷ l) s t o hk hj p q =
    ground (arith, taken-le-left n j k l s t o.1, stamp_of-AtLeast e.1 t j l o.0)

module _ {ℓ} {A : Type ℓ} where
  get-remove_all :
      (k : Bytes) (l : List (Bytes × ℕ)) (m : Map (Entry A))
      → Map.get k (remove_all l m) ≡ (if has k l then none else Map.get k m)
  unfolding remove_all
  get-remove_all k [] m = refl
  get-remove_all k ((j, t) ∷ l) m =
      ground (arith, get-remove_all k l (Map.remove j m), get-remove j k m)

  stamp_of-stamps :
      (k : Bytes) (e : Entry A) (m : Map (Entry A))
      → Map.get k m ≡ some e
      → stamp_of k (stamps m) ≡ some e.timestamp
  unfolding stamp_of Map.get
  stamp_of-stamps k e [] h = absurd (ground arith)
  stamp_of-stamps k e ((j, f) ∷ m) h = ground (arith, stamp_of-stamps k e m)

  -- Every entry that `remove_oldest` drops is at least as old as every entry that it keeps.
  pub remove_oldest-le :
      (m : Map (Entry A)) (k j : Bytes) (dropped kept : Entry A)
      → IsDistinct m
      → Map.get k m ≡ some dropped
      → Map.get k (remove_oldest m) ≡ none
      → Map.get j (remove_oldest m) ≡ some kept
      → dropped.timestamp ≤ kept.timestamp
  unfolding remove_oldest
  remove_oldest-le m k j dropped kept d p gone q =
      let n = length m - 500 in
      let l = sort_by_key (stamps m) in
      let f = stamps-IsFresh m d in
      ground (
        arith,
        get-remove_all k (take n l) m,
        get-remove_all j (take n l) m,
        stamp_of-stamps k dropped m,
        stamp_of-stamps j kept m,
        stamp_of-sort_by_key k (stamps m) f,
        stamp_of-sort_by_key j (stamps m) f,
        taken-le-left n j k l dropped.timestamp kept.timestamp (sort_by_key-IsSorted (stamps m)),
      )

  -- What stands in the cache after it stood there before.
  pub get-remove_oldest :
      (m : Map (Entry A)) (k : Bytes) (e : Entry A)
      → Map.get k (remove_oldest m) ≡ some e
      → Map.get k m ≡ some e
  unfolding remove_oldest
  get-remove_oldest m k e h =
      ground (arith, get-remove_all k (take (length m - 500) (sort_by_key (stamps m))) m)

module _ {ℓ} {A : Type ℓ} where
  get-filter :
      (k : Bytes) (p : Bytes × Entry A → Bool) (m : Map (Entry A)) (e : Entry A)
      → IsDistinct m
      → Map.get k m ≡ some e
      → Map.get k (filter p m) ≡ (if p (k, e) then some e else none)
  unfolding Map.get
  get-filter k p [] e d h = absurd (ground arith)
  get-filter k p ((j, f) ∷ m) e d h =
      ground (arith, get-filter k p m e d.1, get_filter_absent j p m, text_eq_iff j k)

  -- An eviction drops an entry that has not expired only from a cache at its limit, and then
  -- every entry that it keeps is at least as recent.
  pub evict_if_needed-oldest :
      (now : ℕ) (m : Map (Entry A)) (k j : Bytes) (dropped kept : Entry A)
      → IsDistinct m
      → is_expired now dropped ≡ false
      → Map.get k m ≡ some dropped
      → Map.get k (evict_if_needed now m) ≡ none
      → Map.get j (evict_if_needed now m) ≡ some kept
      → (max_signature_cache_entries ≤ length m) × (dropped.timestamp ≤ kept.timestamp)
  unfolding evict_if_needed
  evict_if_needed-oldest now m k j dropped kept d fresh p gone q =
      let alive = filter (λ e. not (is_expired now e.1)) m in
      ground (
        arith,
        get-filter k (λ e. not (is_expired now e.1)) m dropped d,
        remove_oldest-le alive k j dropped kept
            (filter-IsDistinct (λ e. not (is_expired now e.1)) m d),
      )

  -- An eviction changes no entry that it keeps.
  pub get-evict_if_needed :
      (now : ℕ) (k : Bytes) (m : Map (Entry A))
      → IsDistinct m
      → (Map.get k (evict_if_needed now m) ≡ none)
        ⊎ (Map.get k (evict_if_needed now m) ≡ Map.get k m)
  unfolding evict_if_needed
  get-evict_if_needed now k m d = elim (Option-cases (Map.get k (evict_if_needed now m))) [
    | inl e ↦ inl e
    | inr (v, e) ↦ inr (e ∙ sym (before v e))
  ]
    where
      before : (v : Entry A) → Map.get k (evict_if_needed now m) ≡ some v → Map.get k m ≡ some v
      before v e = elim (Option-cases (Map.get k m)) [
        | inl q ↦ ground (
          arith,
          get_filter_absent k (λ e. not (is_expired now e.1)) m,
          get-remove_oldest (filter (λ e. not (is_expired now e.1)) m) k v,
        )
        | inr (w, q) ↦ ground (
          arith,
          get-filter k (λ e. not (is_expired now e.1)) m w d,
          get-remove_oldest (filter (λ e. not (is_expired now e.1)) m) k v,
        )
      ]
