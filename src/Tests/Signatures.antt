-- ===== src/Tests/Signatures.antt =====
-- The signature caches on concrete data.
use agcp.Prelude.{ℕ, ◌-◌, zero, suc, ◌≤◌, ◌≡◌, refl, none, List, [], ◌∷◌, arith, length}
use agcp.Prelude.Text.{Bytes, codes}
use agcp.Prelude.Map
use agcp.Prelude.Map.{Map, IsDistinct}
use agcp.SignatureCache.Evict.{Entry, is_expired, evict_if_needed, remove_all, remove_oldest}
use agcp.SignatureCache.Evict.Sorted.{insert_by_key, sort_by_key}
use agcp.SignatureCache.Oldest.{evict_if_needed-oldest}
use agcp.SignatureCache.Invariant.{Call, IsBounded, run, run-IsBounded}
use agcp.SignatureCache.{Caches, claude, gemini}

abbrev empty : Caches
empty = record { tools = []; thinking = [] }

-- A signature of 60 bytes.
abbrev signature : Bytes
signature = codes "012345678901234567890123456789012345678901234567890123456789"

abbrev calls : List (ℕ × Call)
calls =
    (10, Call.cache_tool (codes "toolu_1") signature)
    ∷ (20, Call.cache_thinking signature gemini)
    ∷ (30, Call.get_tool (codes "toolu_1"))
    ∷ (40, Call.compatible signature claude)
    ∷ []

empty-IsBounded : IsBounded empty
empty-IsBounded = record { tools = (tt, omega arith); thinking = (tt, omega arith) }

run-IsBounded_example : IsBounded (run calls empty)
run-IsBounded_example = run-IsBounded calls empty empty-IsBounded

abbrev one : Map (Entry Bytes)
one = (codes "toolu_1", record { value = signature; timestamp = 10 }) ∷ []

abbrev two : Map (Entry Bytes)
two = (codes "toolu_2", record { value = signature; timestamp = 10 }) ∷ []

-- Entries with the keys below `n`, the highest key first and the oldest.
many : ℕ → Map (Entry Bytes)
many zero = []
many (suc n) = (n ∷ [], record { value = signature; timestamp = 2000 - n }) ∷ many n

get-many : (n k : ℕ) → n ≤ k → Map.get (k ∷ []) (many n) ≡ none
unfolding Map.get many
get-many zero k h = refl
get-many (suc n) k h = ground (arith, get-many n k)

many-IsDistinct : (n : ℕ) → IsDistinct (many n)
unfolding many
many-IsDistinct zero = tt
many-IsDistinct (suc n) = (get-many n n (omega arith), many-IsDistinct n)

oldest_example : (1000 ≤ length (many 1000)) × (1001 ≤ 2000)
unfolding many Map.get Map.remove evict_if_needed is_expired insert_by_key sort_by_key remove_all
    remove_oldest
oldest_example =
    evict_if_needed-oldest 3000 (many 1000) (999 ∷ []) (0 ∷ [])
      (record { value = signature; timestamp = 1001 })
      (record { value = signature; timestamp = 2000 }) (many-IsDistinct 1000) refl refl refl refl
