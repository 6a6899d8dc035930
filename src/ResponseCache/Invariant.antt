-- ===== src/ResponseCache/Invariant.antt =====
-- The map and the order agree, and the cache stays within its limit.
use agcp.Prelude.{
  ℕ, ◌-◌, ◌≤◌, ◌≡◌, refl, Bool, true, false, not, Option, none, some, List, [], ◌∷◌, ◌++◌, arith,
  leb, length, max, Bool-cases, if_rule, inl, inr,
}
use agcp.Prelude.Text.{Bytes, is_some, text_eq_iff}
use agcp.Prelude.Map
use agcp.Prelude.Map.{
  Map, IsDistinct, get-remove, get-insert, length-remove_some, remove_absent, get-insert_self,
  length-insert-le, length-remove-le, remove-IsDistinct, insert-IsDistinct,
}
use agcp.ResponseCache.Cache.{
  CacheEntry, ResponseCache, is_expired, new, get, get_found, evict, put, put_new, put_again, clear,
}
use agcp.ResponseCache.Keys.{
  mem, retain_ne, move_to_back, IsNodup, mem-retain_ne, retain_ne-IsNodup, retain_ne_absent,
  length-retain_ne, append-IsNodup, mem-push, length-push,
}

-- The order holds each key of the map once, and no other.
pub record Agree (m : Map CacheEntry) (o : List Bytes) : Type 0 where
  pub distinct : IsDistinct m
  pub nodup : IsNodup o
  pub same_keys : (k : Bytes) → mem k o ≡ is_some (Map.get k m)
  pub same_length : length o ≡ length m

remove-Agree :
    (key : Bytes) (m : Map CacheEntry) (o : List Bytes)
    → Agree m o
    → is_some (Map.get key m) ≡ true
    → Agree (Map.remove key m) (retain_ne key o)
remove-Agree key m o a h = record {
  distinct = remove-IsDistinct key m a.distinct;
  nodup = retain_ne-IsNodup key o a.nodup;
  same_keys = λ k. ground (arith, a.same_keys k, mem-retain_ne key k o, get-remove key k m);
  same_length = ground (
    arith,
    a.same_keys key,
    length-retain_ne key o a.nodup,
    length-remove_some key m a.distinct h,
    a.same_length,
  );
}

move_to_back-Agree :
    (key : Bytes) (m : Map CacheEntry) (o : List Bytes)
    → Agree m o
    → is_some (Map.get key m) ≡ true
    → Agree m (move_to_back key o)
unfolding move_to_back
move_to_back-Agree key m o a h = record {
  distinct = a.distinct;
  nodup =
      append-IsNodup key (retain_ne key o) (retain_ne-IsNodup key o a.nodup)
        (ground (arith, mem-retain_ne key key o, text_eq_iff key key));
  same_keys = λ k. ground (
    arith,
    a.same_keys k,
    mem-push key k (retain_ne key o),
    mem-retain_ne key k o,
    text_eq_iff key k,
  );
  same_length = ground (
    arith,
    a.same_keys key,
    a.same_length,
    length-push key (retain_ne key o),
    length-retain_ne key o a.nodup,
  );
}

insert_old-Agree :
    (key : Bytes) (e : CacheEntry) (m : Map CacheEntry) (o : List Bytes)
    → Agree m o
    → is_some (Map.get key m) ≡ true
    → Agree (Map.insert key e m) o
insert_old-Agree key e m o a h = record {
  distinct = insert-IsDistinct key e m a.distinct;
  nodup = a.nodup;
  same_keys = λ k. ground (arith, a.same_keys k, get-insert key k e m, text_eq_iff key k);
  same_length =
      unfold Map.insert in omega (arith, a.same_length, length-remove_some key m a.distinct h);
}

insert_new-Agree :
    (key : Bytes) (e : CacheEntry) (m : Map CacheEntry) (o : List Bytes)
    → Agree m o
    → Map.get key m ≡ none
    → Agree (Map.insert key e m) (o ++ key ∷ [])
insert_new-Agree key e m o a h = record {
  distinct = insert-IsDistinct key e m a.distinct;
  nodup = append-IsNodup key o a.nodup (ground (arith, a.same_keys key));
  same_keys = λ k. ground (arith, a.same_keys k, mem-push key k o, get-insert key k e m);
  same_length =
      unfold Map.insert in
      rw (remove_absent key m h) (omega (arith, a.same_length, length-push key o));
}

retain_ne_front : (k : Bytes) (o : List Bytes) → mem k o ≡ false → retain_ne k (k ∷ o) ≡ o
unfolding retain_ne
retain_ne_front k o h = ground (arith, text_eq_iff k k, retain_ne_absent k o h)

remove_front-Agree :
    (k : Bytes) (m : Map CacheEntry) (o : List Bytes) → Agree m (k ∷ o) → Agree (Map.remove k m) o
remove_front-Agree k m o a =
    let here : is_some (Map.get k m) ≡ true = ground (arith, a.same_keys k, text_eq_iff k k) in
    let e : retain_ne k (k ∷ o) ≡ o = retain_ne_front k o a.nodup.0 in
    rw e at (remove-Agree k m (k ∷ o) a here)

-- What the eviction leaves: a map below the limit, whose missing keys stay missing.
record Evicted (max_entries : ℕ) (m : Map CacheEntry) (r : Map CacheEntry × List Bytes)
    : Type 0 where
  agree : Agree r.0 r.1
  room : length r.0 ≤ max_entries - 1
  absent : (k : Bytes) → Map.get k m ≡ none → Map.get k r.0 ≡ none

evict-Evicted :
    (max_entries : ℕ) (o : List Bytes) (m : Map CacheEntry)
    → Agree m o
    → Evicted max_entries m (evict max_entries o m)
unfolding evict
evict-Evicted max_entries [] m a = record {
  agree = a;
  room = omega (arith, a.same_length);
  absent = λ k h. h;
}
evict-Evicted max_entries (k ∷ o) m a = elim (Bool-cases (leb max_entries (length m))) [
  | inl full ↦
      let r = evict-Evicted max_entries o (Map.remove k m) (remove_front-Agree k m o a) in
      rw full (record {
        agree = r.agree;
        room = r.room;
        absent = λ j h. r.absent j (ground (arith, get-remove k j m));
      })
  | inr fits ↦ rw fits (record { agree = a; room = ground arith; absent = λ j h. h })
]

pub record IsValid (c : ResponseCache) : Type 0 where
  pub agree : Agree c.entries c.order
  pub bounded : length c.entries ≤ max c.max_entries 1

pub new-IsValid : (enabled : Bool) (ttl max_entries : ℕ) → IsValid (new enabled ttl max_entries)
unfolding new Map.get
new-IsValid enabled ttl max_entries = record {
  agree = record { distinct = tt; nodup = tt; same_keys = λ k. refl; same_length = refl };
  bounded = omega arith;
}

get_found-IsValid :
    (now : ℕ) (key : Bytes) (found : Option CacheEntry) (c : ResponseCache)
    → Map.get key c.entries ≡ found
    → IsValid c
    → IsValid (get_found now key found c).0
unfolding get_found
get_found-IsValid now key none c e v = record { agree = v.agree; bounded = v.bounded }
get_found-IsValid now key (some entry) c e v =
    let here : is_some (Map.get key c.entries) ≡ true = rw e in
    if_rule (λ (r : ResponseCache × Option Bytes). IsValid r.0) (is_expired now entry) _ _
      (λ _. record {
        agree = remove-Agree key c.entries c.order v.agree here;
        bounded = omega (arith, v.bounded, length-remove-le key c.entries);
      })
      (λ _. record {
        agree = move_to_back-Agree key c.entries c.order v.agree here;
        bounded = v.bounded;
      })

pub get-IsValid :
    (now : ℕ) (key : Bytes) (c : ResponseCache) → IsValid c → IsValid (get now key c).0
unfolding get
get-IsValid now key c v =
    if_rule (λ (r : ResponseCache × Option Bytes). IsValid r.0) (not c.enabled) _ _
      (λ _. record { agree = v.agree; bounded = v.bounded })
      (λ _. get_found-IsValid now key (Map.get key c.entries) c refl v)

put_again-IsValid :
    (now : ℕ) (key response : Bytes) (c : ResponseCache)
    → IsValid c
    → is_some (Map.get key c.entries) ≡ true
    → IsValid (put_again now key response c)
unfolding put_again
put_again-IsValid now key response c v here =
    let e : CacheEntry = record { response = response; created_at = now; ttl = c.default_ttl } in
    record {
      agree =
          move_to_back-Agree key (Map.insert key e c.entries) c.order
            (insert_old-Agree key e c.entries c.order v.agree here) (rw get-insert_self refl);
      bounded =
          unfold Map.insert in
          omega (arith, v.bounded, length-remove_some key c.entries v.agree.distinct here);
    }

put_new-IsValid :
    (now : ℕ) (key response : Bytes) (c : ResponseCache)
    → IsValid c
    → Map.get key c.entries ≡ none
    → IsValid (put_new now key response c)
unfolding put_new
put_new-IsValid now key response c v gone =
    let r = evict c.max_entries c.order c.entries in
    let left = evict-Evicted c.max_entries c.order c.entries v.agree in
    let e : CacheEntry = record { response = response; created_at = now; ttl = c.default_ttl } in
    record {
      agree = insert_new-Agree key e r.0 r.1 left.agree (left.absent key gone);
      bounded = omega (arith, left.room, length-insert-le key e r.0);
    }

pub put-IsValid :
    (now : ℕ) (key response : Bytes) (c : ResponseCache)
    → IsValid c
    → IsValid (put now key response c)
unfolding put
put-IsValid now key response c v =
    if_rule IsValid (not c.enabled) _ _ (λ _. v)
      (λ _.
        if_rule IsValid (is_some (Map.get key c.entries)) _ _
          (put_again-IsValid now key response c v)
          (λ h. put_new-IsValid now key response c v (ground arith)))

pub clear-IsValid : (c : ResponseCache) → IsValid c → IsValid (clear c)
unfolding clear Map.get
clear-IsValid c v = record {
  agree = record { distinct = tt; nodup = tt; same_keys = λ k. refl; same_length = refl };
  bounded = omega arith;
}
