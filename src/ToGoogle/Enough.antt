-- ===== src/ToGoogle/Enough.antt =====
-- The size of a schema is enough fuel to clean it.
use agcp.Prelude.{
  ℕ, zero, suc, ◌+◌, ◌≤◌, ◌≡◌, refl, ap, ◌⊎◌, Bool, true, false, not, Option, none, some, arith,
  if◌then◌else◌, if_rule, ◌>>=◌, inl, inr,
}
use agcp.Prelude.Text.{Bytes, codes, text_eq, text_eq_iff}
use agcp.Format.Json.{
  Json, Values, Fields, get, insert, find, map_values, map_fields, contains_key, size, size_values,
  size_fields,
}
use agcp.ToGoogle.Schema.{
  is_text, type_of, as_array, or_else, variant_of, merged, sanitize_items, insert_properties,
  clean_field, clean_fields, sanitize_object, sanitize_within, sanitize_schema,
}

size_pos : (v : Json) → 1 ≤ size v
unfolding size
size_pos Json.null = omega arith
size_pos (Json.bool _) = omega arith
size_pos (Json.number _) = omega arith
size_pos (Json.string _) = omega arith
size_pos (Json.array arr) = omega arith
size_pos (Json.object fields) = omega arith

some_inj : {A : Type 0} {a b : A} → some a ≡ some b → a ≡ b
some_inj h = ground arith

-- What the first arm, or the second, gives.
some_if :
    {A : Type 0} (b : Bool) (w v : A) (o : Option A)
    → (if b then some w else o) ≡ some v
    → ((b ≡ true) × (w ≡ v)) ⊎ ((b ≡ false) × (o ≡ some v))
some_if true w v o h = inl (refl, some_inj h)
some_if false w v o h = inr (refl, h)

size-find :
    (test : Json → Bool) (arr : Values) (v : Json)
    → find test arr ≡ some v
    → size v ≤ size_values arr
unfolding find size
size-find test Values.none_left v h = absurd (ground arith)
size-find test (Values.value w rest) v h = elim (some_if (test w) w v (find test rest) h) [
  | inl (_, e) ↦ let s = ap size e in omega arith
  | inr (_, e) ↦ let le = size-find test rest v e in omega arith
]

size-get : (k : Bytes) (m : Fields) (v : Json) → get k m ≡ some v → size v ≤ size_fields m
unfolding get size
size-get k Fields.empty v h = absurd (ground arith)
size-get k (Fields.field j w rest) v h = elim (some_if (text_eq j k) w v (get k rest) h) [
  | inl (_, e) ↦ let s = ap size e in omega arith
  | inr (_, e) ↦ let le = size-get k rest v e in omega arith
]

-- Two keys have two values.
size-get_two :
    (j k : Bytes) (m : Fields) (v w : Json)
    → get j m ≡ some v
    → get k m ≡ some w
    → text_eq j k ≡ false
    → size v + size w ≤ size_fields m
unfolding get size
size-get_two j k Fields.empty v w g h n = absurd (ground arith)
size-get_two j k (Fields.field i x rest) v w g h n =
    elim (some_if (text_eq i j) x v (get j rest) g) [
      | inl (c, e) ↦ elim (some_if (text_eq i k) x w (get k rest) h) [
        | inl (d, _) ↦ absurd (ground (arith, text_eq_iff i j, text_eq_iff i k, text_eq_iff j k))
        | inr (_, f) ↦ let s = ap size e in let le = size-get k rest w f in omega arith
      ]
      | inr (_, e) ↦ elim (some_if (text_eq i k) x w (get k rest) h) [
        | inl (_, f) ↦ let s = ap size f in let le = size-get j rest v e in omega arith
        | inr (_, f) ↦ let le = size-get_two j k rest v w e f n in omega arith
      ]
    ]

size-insert :
    (k : Bytes) (v : Json) (m : Fields) → size_fields (insert k v m) ≤ size v + size_fields m
unfolding insert size_fields
size-insert k v Fields.empty = omega arith
size-insert k v (Fields.field j w rest) = ground (arith, size-insert k v rest)

from_array :
    (test : Json → Bool) (o : Option Json) (v : Json)
    → (o >>= as_array >>= find test) ≡ some v
    → (arr : Values) × (o ≡ some (Json.array arr)) × (find test arr ≡ some v)
from_array test (some (Json.array arr)) v h = (arr, refl, h)
from_array test none v h = absurd (ground arith)
from_array test (some Json.null) v h = absurd (ground arith)
from_array test (some (Json.bool _)) v h = absurd (ground arith)
from_array test (some (Json.number _)) v h = absurd (ground arith)
from_array test (some (Json.string _)) v h = absurd (ground arith)
from_array test (some (Json.object _)) v h = absurd (ground arith)

either : (a b : Option Json) (v : Json) → or_else a b ≡ some v → (a ≡ some v) ⊎ (b ≡ some v)
either none b v h = inr h
either (some w) b v h = inl h

size-merged_fields :
    (desc : Json) (fields : Fields)
    → size (merged (some desc) (Json.object fields)) ≤ size desc + size (Json.object fields)
unfolding merged size
size-merged_fields desc fields =
    if_rule (λ m. 1 + size_fields m ≤ size desc + (1 + size_fields fields))
      (contains_key (codes "description") fields) fields (insert (codes "description") desc fields)
      (λ h. omega arith) (λ h. omega (arith, size-insert (codes "description") desc fields))

size-merged :
    (o : Option Json) (variant : Json) (n : ℕ)
    → ((d : Json) → o ≡ some d → size d + size variant ≤ n)
    → size variant ≤ n
    → size (merged o variant) ≤ n
unfolding merged
size-merged none variant n h le = le
size-merged (some desc) (Json.object fields) n h le =
    let both = h desc refl in omega (arith, size-merged_fields desc fields)
size-merged (some desc) Json.null n h le = le
size-merged (some desc) (Json.bool _) n h le = le
size-merged (some desc) (Json.number _) n h le = le
size-merged (some desc) (Json.string _) n h le = le
size-merged (some desc) (Json.array _) n h le = le

variant_from :
    (k : Bytes) (obj : Fields) (arr : Values) (v : Json)
    → get k obj ≡ some (Json.array arr)
    → text_eq k (codes "description") ≡ false
    → size v ≤ size_values arr
    → size (merged (get (codes "description") obj) v) ≤ size_fields obj
unfolding size
variant_from k obj arr v g n le =
    let a = size-get k obj (Json.array arr) g in
    size-merged (get (codes "description") obj) v (size_fields obj)
      (λ d e. omega (arith, size-get_two k (codes "description") obj (Json.array arr) d g e n))
      (omega arith)

size-variant_of :
    (obj : Fields) (v : Json)
    → variant_of obj ≡ some v
    → size (merged (get (codes "description") obj) v) ≤ size_fields obj
unfolding variant_of
size-variant_of obj v h =
    let (arr, e, f) =
      from_array (λ v. not (is_text (codes "null") (type_of v)))
        (or_else (get (codes "anyOf") obj) (get (codes "oneOf") obj)) v h in
    let le = size-find (λ v. not (is_text (codes "null") (type_of v))) arr v f in
    elim (either (get (codes "anyOf") obj) (get (codes "oneOf") obj) (Json.array arr) e) [
      | inl g ↦ variant_from (codes "anyOf") obj arr v g refl le
      | inr g ↦ variant_from (codes "oneOf") obj arr v g refl le
    ]

-- Two cleaners that agree on what is small enough.
abbrev Agree : (Json → Json) → (Json → Json) → ℕ → Type 0
Agree f g n = (v : Json) → size v ≤ n → f v ≡ g v

map_values-Agree :
    (f g : Json → Json) (arr : Values)
    → Agree f g (size_values arr)
    → map_values f arr ≡ map_values g arr
unfolding map_values size
map_values-Agree f g Values.none_left h = refl
map_values-Agree f g (Values.value v rest) h =
    rw (h v (omega arith), map_values-Agree f g rest (λ w le. h w (omega arith))) refl

map_fields-Agree :
    (f g : Json → Json) (m : Fields) → Agree f g (size_fields m) → map_fields f m ≡ map_fields g m
unfolding map_fields size
map_fields-Agree f g Fields.empty h = refl
map_fields-Agree f g (Fields.field k v rest) h =
    rw (h v (omega arith), map_fields-Agree f g rest (λ w le. h w (omega arith))) refl

sanitize_items-Agree :
    (f g : Json → Json) (v : Json) → Agree f g (size v) → sanitize_items f v ≡ sanitize_items g v
unfolding sanitize_items size
sanitize_items-Agree f g (Json.array arr) h =
    ap Json.array (map_values-Agree f g arr (λ w le. h w (omega arith)))
sanitize_items-Agree f g (Json.object m) h = h (Json.object m) (omega arith)
sanitize_items-Agree f g Json.null h = refl
sanitize_items-Agree f g (Json.bool _) h = refl
sanitize_items-Agree f g (Json.number _) h = refl
sanitize_items-Agree f g (Json.string _) h = refl

insert_properties-Agree :
    (f g : Json → Json) (v : Json) (clean : Fields)
    → Agree f g (size v)
    → insert_properties f v clean ≡ insert_properties g v clean
unfolding insert_properties size
insert_properties-Agree f g (Json.object m) clean h =
    ap (λ p. insert (codes "properties") (Json.object p) clean)
      (map_fields-Agree f g m (λ w le. h w (omega arith)))
insert_properties-Agree f g (Json.array _) clean h = refl
insert_properties-Agree f g Json.null clean h = refl
insert_properties-Agree f g (Json.bool _) clean h = refl
insert_properties-Agree f g (Json.number _) clean h = refl
insert_properties-Agree f g (Json.string _) clean h = refl

clean_fields-Agree :
    (f g : Json → Json) (obj clean : Fields)
    → Agree f g (size_fields obj)
    → clean_fields f obj clean ≡ clean_fields g obj clean
unfolding clean_fields clean_field size
clean_fields-Agree f g Fields.empty clean h = refl
clean_fields-Agree f g (Fields.field k v rest) clean h =
    let small : Agree f g (size v) = λ w le. h w (omega arith) in
    let items = sanitize_items-Agree f g v small in
    let props = insert_properties-Agree f g v clean small in
    rw (items, props)
      (clean_fields-Agree f g rest (clean_field g k v clean) (λ w le. h w (omega arith)))

sanitize_object-Agree :
    (f g : Json → Json) (obj : Fields) (o : Option Json)
    → variant_of obj ≡ o
    → Agree f g (size_fields obj)
    → sanitize_object f obj o ≡ sanitize_object g obj o
unfolding sanitize_object
sanitize_object-Agree f g obj none e h = rw (clean_fields-Agree f g obj Fields.empty h) refl
sanitize_object-Agree f g obj (some v) e h =
    h (merged (get (codes "description") obj) v) (size-variant_of obj v e)

sanitize_within-fuel :
    (x y : Json) (n m : ℕ) (schema : Json)
    → size schema ≤ n
    → size schema ≤ m
    → sanitize_within x n schema ≡ sanitize_within y m schema
unfolding sanitize_within size
sanitize_within-fuel x y zero m schema a b = absurd (omega (arith, size_pos schema))
sanitize_within-fuel x y (suc n) zero schema a b = absurd (omega (arith, size_pos schema))
sanitize_within-fuel x y (suc n) (suc m) (Json.array arr) a b = ap Json.array (
    map_values-Agree (sanitize_within x n) (sanitize_within y m) arr
      (λ w le. sanitize_within-fuel x y n m w (omega arith) (omega arith)))
sanitize_within-fuel x y (suc n) (suc m) (Json.object obj) a b =
    sanitize_object-Agree (sanitize_within x n) (sanitize_within y m) obj (variant_of obj) refl
      (λ w le. sanitize_within-fuel x y n m w (omega arith) (omega arith))
sanitize_within-fuel x y (suc n) (suc m) Json.null a b = refl
sanitize_within-fuel x y (suc n) (suc m) (Json.bool _) a b = refl
sanitize_within-fuel x y (suc n) (suc m) (Json.number _) a b = refl
sanitize_within-fuel x y (suc n) (suc m) (Json.string _) a b = refl

-- The cleaning of a schema ends within fuel of its size, the chosen variants with their
-- descriptions included: any more fuel gives the same, and so does any other value in the place of
-- a result for which the fuel ran out, since there is none.
pub sanitize_schema-fuel :
    (exhausted : Json) (n m : ℕ) (schema : Json)
    → size schema ≤ n
    → size schema ≤ m
    → sanitize_within exhausted n schema ≡ sanitize_schema m schema
unfolding sanitize_schema
sanitize_schema-fuel exhausted n m schema a b =
    sanitize_within-fuel exhausted Json.null n m schema a b
