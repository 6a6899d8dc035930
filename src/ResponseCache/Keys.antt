-- ===== src/ResponseCache/Keys.antt =====
-- The LRU order, a `VecDeque` of keys: least recently used first.
use agcp.Prelude.{
  ◌+◌, ◌≡◌, refl, Bool, true, false, not, ◌||◌, List, [], ◌∷◌, ◌++◌, arith, length, any, filter,
  if◌then◌else◌, any-append, length-append,
}
use agcp.Prelude.Text.{Bytes, text_eq, text_eq_iff}

abbrev pub mem : Bytes → List Bytes → Bool
mem k = any (λ j. text_eq j k)

-- `order.retain(|k| k != key)`
unfoldable pub retain_ne : Bytes → List Bytes → List Bytes
retain_ne key = filter (λ k. not (text_eq k key))

-- `retain` and `push_back`: the key is the most recently used one.
unfoldable pub move_to_back : Bytes → List Bytes → List Bytes
unfolding retain_ne
move_to_back key order = retain_ne key order ++ key ∷ []

abbrev pub IsNodup : List Bytes → Type 0
IsNodup [] = Unit
IsNodup (k ∷ o) = (mem k o ≡ false) × IsNodup o

pub mem-retain_ne :
    (key k : Bytes) (o : List Bytes)
    → mem k (retain_ne key o) ≡ (if text_eq key k then false else mem k o)
unfolding retain_ne
mem-retain_ne key k [] = ground arith
mem-retain_ne key k (j ∷ o) =
    ground (arith, mem-retain_ne key k o, text_eq_iff j key, text_eq_iff j k, text_eq_iff key k)

pub retain_ne-IsNodup : (key : Bytes) (o : List Bytes) → IsNodup o → IsNodup (retain_ne key o)
unfolding retain_ne
retain_ne-IsNodup key [] d = d
retain_ne-IsNodup key (j ∷ o) d = ground (arith, retain_ne-IsNodup key o, mem-retain_ne key j o)

pub retain_ne_absent : (key : Bytes) (o : List Bytes) → mem key o ≡ false → retain_ne key o ≡ o
unfolding retain_ne
retain_ne_absent key [] h = refl
retain_ne_absent key (j ∷ o) h = ground (arith, retain_ne_absent key o)

pub length-retain_ne :
    (key : Bytes) (o : List Bytes)
    → IsNodup o
    → mem key o ≡ true
    → length (retain_ne key o) + 1 ≡ length o
unfolding retain_ne
length-retain_ne key [] d h = absurd (ground arith)
length-retain_ne key (j ∷ o) d h =
    ground (arith, length-retain_ne key o, retain_ne_absent key o, text_eq_iff j key)

pub append-IsNodup :
    (k : Bytes) (o : List Bytes) → IsNodup o → mem k o ≡ false → IsNodup (o ++ k ∷ [])
append-IsNodup k [] d h = ground arith
append-IsNodup k (j ∷ o) d h = ground (
  arith,
  append-IsNodup k o,
  any-append (λ i. text_eq i j) o (k ∷ []),
  text_eq_iff j k,
  text_eq_iff k j,
)

pub mem-push : (k j : Bytes) (o : List Bytes) → mem j (o ++ k ∷ []) ≡ (mem j o || text_eq k j)
mem-push k j o = ground (arith, any-append (λ i. text_eq i j) o (k ∷ []))

pub length-push : (k : Bytes) (o : List Bytes) → length (o ++ k ∷ []) ≡ length o + 1
length-push k o = omega (arith, length-append o (k ∷ []))
