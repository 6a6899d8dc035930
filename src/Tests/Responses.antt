-- ===== src/Tests/Responses.antt =====
-- The response cache on concrete data.
use agcp.Prelude.{ℕ, ◌∷◌, ◌≡◌, ◌++◌, refl, true, none, some, List, [], arith, length}
use agcp.Prelude.Text.{codes}
use agcp.Prelude.Map
use agcp.Prelude.Map.{get-insert}
use agcp.ResponseCache.Cache
use agcp.ResponseCache.Cache.{CacheEntry, ResponseCache, is_expired, evict, count}
use agcp.ResponseCache.Calls.{Call, run, run-IsValid}
use agcp.ResponseCache.Invariant.{IsValid}
use agcp.ResponseCache.Keys.{move_to_back}
use agcp.ResponseCache.Reads.{get-put, put_full}

abbrev calls : List (ℕ × Call)
calls =
    (1, Call.put (codes "a") (codes "1"))
    ∷ (2, Call.put (codes "b") (codes "2"))
    ∷ (3, Call.get (codes "a"))
    ∷ (4, Call.put (codes "c") (codes "3"))
    ∷ []

-- A cache for two responses, after the calls.
abbrev cache : ResponseCache
cache = run calls (Cache.new true 300 2)

-- The least recently used key, "b", is gone.
cache_order : cache.order ≡ codes "a" ∷ codes "c" ∷ []
unfolding run Cache.new Cache.get Cache.put is_expired evict Map.get Map.insert Map.remove
    move_to_back
cache_order = refl

run-IsValid_example : IsValid cache
run-IsValid_example = run-IsValid true 300 2 calls

get-put_example :
    let c = Cache.put 10 (codes "d") (codes "4") cache in
    ((Cache.get 20 (codes "d") c).1 ≡ some (codes "4"))
    × ((Cache.get 20 (codes "d") c).0.hits ≡ count cache.hits)
    × ((Cache.get 20 (codes "d") c).0.order ≡ move_to_back (codes "d") c.order)
unfolding run Cache.new Cache.get Cache.put is_expired evict Map.get Map.insert Map.remove
    move_to_back
get-put_example = get-put 10 20 (codes "d") (codes "4") cache refl (omega arith)

put_full_example :
    let c = Cache.put 10 (codes "d") (codes "4") cache in
    (c.order ≡ (codes "c" ∷ []) ++ codes "d" ∷ [])
    × (length c.entries ≡ 2)
    × (Map.get (codes "a") c.entries ≡ none)
unfolding run Cache.new Cache.get Cache.put is_expired evict Map.get Map.insert Map.remove
    move_to_back
put_full_example =
    put_full 10 (codes "d") (codes "4") (codes "a") (codes "a") (codes "c" ∷ []) cache
      (run-IsValid true 300 2 calls) refl refl refl refl
