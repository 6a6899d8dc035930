-- ===== src/ResponseCache/Reads.antt =====
-- What the cache returns, what it evicts, and what a call leaves alone.
use agcp.Prelude.{
  ℕ, ◌+◌, ◌-◌, ◌≤◌, ◌<◌, ◌≡◌, refl, true, none, some, List, [], ◌∷◌, ◌++◌, arith, length,
  if◌then◌else◌,
}
use agcp.Prelude.Text.{Bytes, is_some, text_eq, text_eq_iff}
use agcp.Prelude.Map
use agcp.Prelude.Map.{Map, get-remove, get-insert, length-remove_some, length-insert_new}
use agcp.ResponseCache.Cache.{CacheEntry, ResponseCache, is_expired, get, evict, put, count}
use agcp.ResponseCache.Invariant.{IsValid}
use agcp.ResponseCache.Keys.{move_to_back}

-- A `get` that directly follows the `put` of its key into an enabled cache, with no other call
-- between them, returns the response if its time to live has not passed by then; the hit is
-- counted, and the key becomes the most recently used one.
pub get-put :
    (now later : ℕ) (key response : Bytes) (c : ResponseCache)
    → c.enabled ≡ true
    → later - now < c.default_ttl
    → ((get later key (put now key response c)).1 ≡ some response)
      × ((get later key (put now key response c)).0.hits ≡ count c.hits)
      × ((get later key (put now key response c)).0.order
          ≡ move_to_back key (put now key response c).order)
unfolding get put is_expired
get-put now later key response c h k = ground (
  arith,
  text_eq_iff key key,
  get-insert key key (record { response = response; created_at = now; ttl = c.default_ttl })
      c.entries,
  get-insert key key (record { response = response; created_at = now; ttl = c.default_ttl })
      (evict c.max_entries c.order c.entries).0,
)

-- A `get` changes nothing that a later `get` of another key returns, and of its own key it takes
-- away only what has expired.
get-get :
    (now later : ℕ) (key other : Bytes) (c : ResponseCache)
    → now ≤ later
    → (get later other (get now key c).0).1 ≡ (get later other c).1
unfolding get is_expired
get-get now later key other c h =
    ground (arith, get-remove key other c.entries, text_eq_iff key other)

evict_room :
    (max_entries : ℕ) (o : List Bytes) (m : Map CacheEntry)
    → length m < max_entries
    → evict max_entries o m ≡ (m, o)
unfolding evict
evict_room max_entries [] m h = refl
evict_room max_entries (k ∷ o) m h = ground arith

evict_one :
    (max_entries : ℕ) (k : Bytes) (o : List Bytes) (m : Map CacheEntry)
    → length m ≡ max_entries
    → length (Map.remove k m) + 1 ≡ length m
    → evict max_entries (k ∷ o) m ≡ (Map.remove k m, o)
unfolding evict
evict_one max_entries k o m h r =
    ground (arith, evict_room max_entries o (Map.remove k m) (omega arith))

-- In a valid and enabled cache that is full, a new key takes the place of the least recently used
-- one, and of no other.
pub put_full :
    (now : ℕ) (key response oldest q : Bytes) (order : List Bytes) (c : ResponseCache)
    → IsValid c
    → c.enabled ≡ true
    → length c.entries ≡ c.max_entries
    → c.order ≡ oldest ∷ order
    → Map.get key c.entries ≡ none
    → let c' = put now key response c in
      (c'.order ≡ order ++ key ∷ [])
      × (length c'.entries ≡ c.max_entries)
      × (Map.get q c'.entries ≡ (
          if text_eq key q
          then some (record { response = response; created_at = now; ttl = c.default_ttl })
          else if text_eq oldest q
          then none
          else Map.get q c.entries))
unfolding put
put_full now key response oldest q order c v on full e gone =
    let here : is_some (Map.get oldest c.entries) ≡ true =
      ground (arith, v.agree.same_keys oldest, text_eq_iff oldest oldest) in
    let fewer = length-remove_some oldest c.entries v.agree.distinct here in
    let entry : CacheEntry = record {
      response = response;
      created_at = now;
      ttl = c.default_ttl;
    } in
    ground (
      arith,
      fewer,
      evict_one c.max_entries oldest order c.entries full fewer,
      get-insert key q entry (Map.remove oldest c.entries),
      get-remove oldest q c.entries,
      get-remove oldest key c.entries,
      length-insert_new key entry (Map.remove oldest c.entries),
    )
