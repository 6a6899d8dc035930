-- ===== src/ResponseCache/Calls.antt =====
-- Any sequence of calls of the cache's methods.
use agcp.Prelude.{ℕ, Bool, List, [], ◌∷◌}
use agcp.Prelude.Text.{Bytes}
use agcp.ResponseCache.Cache
use agcp.ResponseCache.Cache.{ResponseCache}
use agcp.ResponseCache.Invariant.{IsValid, new-IsValid, get-IsValid, put-IsValid, clear-IsValid}

-- A call of the cache.
pub data Call : Type 0 where
  get : Bytes → Call
  put : Bytes → Bytes → Call
  clear : Call

unfoldable pub apply : ℕ → Call → ResponseCache → ResponseCache
apply now (Call.get key) c = (Cache.get now key c).0
apply now (Call.put key response) c = Cache.put now key response c
apply now Call.clear c = Cache.clear c

unfoldable pub run : List (ℕ × Call) → ResponseCache → ResponseCache
unfolding apply
run [] c = c
run ((now, call) ∷ calls) c = run calls (apply now call c)

apply-IsValid : (now : ℕ) (call : Call) (c : ResponseCache) → IsValid c → IsValid (apply now call c)
unfolding apply
apply-IsValid now (Call.get key) c v = get-IsValid now key c v
apply-IsValid now (Call.put key response) c v = put-IsValid now key response c v
apply-IsValid now Call.clear c v = clear-IsValid c v

run_from-IsValid : (calls : List (ℕ × Call)) (c : ResponseCache) → IsValid c → IsValid (run calls c)
unfolding run
run_from-IsValid [] c v = v
run_from-IsValid ((now, call) ∷ calls) c v =
    run_from-IsValid calls (apply now call c) (apply-IsValid now call c v)

-- Whatever calls a new cache gets, its map and its order hold the same keys, each once, and there
-- are at most `max_entries` of them, or one where that is 0.
pub run-IsValid :
    (enabled : Bool) (ttl max_entries : ℕ) (calls : List (ℕ × Call))
    → IsValid (run calls (Cache.new enabled ttl max_entries))
run-IsValid enabled ttl max_entries calls =
    run_from-IsValid calls (Cache.new enabled ttl max_entries) (new-IsValid enabled ttl max_entries)
