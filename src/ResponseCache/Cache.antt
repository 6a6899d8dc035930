-- ===== src/ResponseCache/Cache.antt =====
-- `ResponseCache` and its methods. Instants and durations are nanoseconds.
use agcp.Prelude.{
  ℕ, ◌+◌, ◌-◌, ◌*◌, ◌%◌, ◌^◌, Bool, not, Option, none, some, List, [], ◌∷◌, ◌++◌, ltb, leb, length,
  if◌then◌else◌,
}
use agcp.Prelude.Text.{Bytes, is_some}
use agcp.Prelude.Map
use agcp.Prelude.Map.{Map}
use agcp.ResponseCache.Keys.{retain_ne, move_to_back}

pub record CacheEntry : Type 0 where
  pub response : Bytes
  pub created_at : ℕ
  pub ttl : ℕ

-- `self.created_at.elapsed() >= self.ttl`
unfoldable pub is_expired : ℕ → CacheEntry → Bool
is_expired now e = leb e.ttl (now - e.created_at)

pub record ResponseCache : Type 0 where
  pub entries : Map CacheEntry
  pub order : List Bytes
  pub max_entries : ℕ
  pub default_ttl : ℕ
  pub enabled : Bool
  pub hits : ℕ
  pub misses : ℕ

unfoldable pub new : Bool → ℕ → ℕ → ResponseCache
new enabled ttl_seconds max_entries = record {
  entries = [];
  order = [];
  max_entries = max_entries;
  default_ttl = ttl_seconds * 1_000_000_000;
  enabled = enabled;
  hits = 0;
  misses = 0;
}

abbrev pub count : ℕ → ℕ
count n = (n + 1) % 2 ^ 64

abbrev missed : ResponseCache → ResponseCache
missed c = record c { misses = count c.misses }

unfoldable pub get_found :
    ℕ → Bytes → Option CacheEntry → ResponseCache → ResponseCache × Option Bytes
get_found now key none c = (missed c, none)
get_found now key (some entry) c =
    if is_expired now entry
    then (
      record c {
        entries = Map.remove key c.entries;
        order = retain_ne key c.order;
        misses = count c.misses;
      },
      none,
    )
    else (record c { order = move_to_back key c.order; hits = count c.hits }, some entry.response)

unfoldable pub get : ℕ → Bytes → ResponseCache → ResponseCache × Option Bytes
unfolding get_found
get now key c =
    if not c.enabled then (missed c, none) else get_found now key (Map.get key c.entries) c

-- `while self.entries.len() >= self.max_entries`, which ends when the order is empty.
unfoldable pub evict : ℕ → List Bytes → Map CacheEntry → Map CacheEntry × List Bytes
evict max_entries [] m = (m, [])
evict max_entries (oldest_key ∷ order) m =
    let rest = evict max_entries order (Map.remove oldest_key m) in
    if leb max_entries (length m) then rest else (m, oldest_key ∷ order)

unfoldable pub put_new : ℕ → Bytes → Bytes → ResponseCache → ResponseCache
put_new now key response c =
    let (entries, order) = evict c.max_entries c.order c.entries in
    record c {
      entries =
          Map.insert key (record { response = response; created_at = now; ttl = c.default_ttl })
            entries;
      order = order ++ key ∷ [];
    }

unfoldable pub put_again : ℕ → Bytes → Bytes → ResponseCache → ResponseCache
put_again now key response c = record c {
  entries =
      Map.insert key (record { response = response; created_at = now; ttl = c.default_ttl })
        c.entries;
  order = move_to_back key c.order;
}

unfoldable pub put : ℕ → Bytes → Bytes → ResponseCache → ResponseCache
unfolding put_new put_again
put now key response c =
    if not c.enabled
    then c
    else if is_some (Map.get key c.entries)
    then put_again now key response c
    else put_new now key response c

unfoldable pub clear : ResponseCache → ResponseCache
clear c = record c { entries = []; order = [] }

pub record CacheStats (F : Type 0) : Type 0 where
  pub enabled : Bool
  pub entries : ℕ
  pub max_entries : ℕ
  pub hits : ℕ
  pub misses : ℕ
  pub hit_rate : F

-- The rate is a float: `ratio` divides, and `zero_rate` is 0.0.
unfoldable pub stats : {F : Type 0} → (ℕ → ℕ → F) → F → ResponseCache → CacheStats F
stats ratio zero_rate c =
    let total = (c.hits + c.misses) % 2 ^ 64 in
    record {
      enabled = c.enabled;
      entries = length c.entries;
      max_entries = c.max_entries;
      hits = c.hits;
      misses = c.misses;
      hit_rate = if ltb 0 total then ratio c.hits total else zero_rate;
    }
