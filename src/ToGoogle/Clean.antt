-- ===== src/ToGoogle/Clean.antt =====
-- What the upstream accepts as a schema, and that a cleaned object is one.
use agcp.Prelude.{
  ℕ, zero, suc, ◌≡◌, refl, Bool, true, false, ◌&&◌, ◌||◌, not, Option, none, some, arith, ◌∙◌,
}
use agcp.Prelude.Text.{Bytes, codes, is_some}
use agcp.Format.Json.{Json, Values, Fields, get, contains_key, insert, remove, filter, map_fields}
use agcp.ToGoogle.Schema.{
  is_allowed, variant_of, merged, one_type, insert_properties, sanitize_items, clean_field,
  clean_fields, ensure_type, add_placeholder, check_required, sanitize_object, sanitize_within,
  sanitize_schema, has_fields, reason, is_object_type, is_property, put_required, with_required,
}
use agcp.ToGoogle.Maps.{
  get-insert, get-remove, get-remove_ne, all_keys, all_keys-insert, all_keys-remove, all_values,
  all_values-filter,
}

abbrev some_required : Fields → Values → Bool
some_required props Values.none_left = false
some_required props required = all_values (is_property props) required

abbrev required_exists : Option Json → Option Json → Bool
required_exists (some (Json.array required)) (some (Json.object props)) =
    some_required props required
required_exists _ _ = true

-- Only accepted fields; a type; properties for an object; and beside properties a list of required
-- ones that is not empty and names nothing else, if there is a list.
unfoldable pub is_clean : Fields → Bool
unfolding all_keys all_values
is_clean fields =
    all_keys is_allowed fields
    && contains_key (codes "type") fields
    && (not (is_object_type fields) || has_fields (get (codes "properties") fields))
    && required_exists (get (codes "required") fields) (get (codes "properties") fields)

insert_properties_allowed :
    (f : Json → Json) (value : Json) (clean : Fields)
    → all_keys is_allowed clean ≡ true
    → all_keys is_allowed (insert_properties f value clean) ≡ true
unfolding insert_properties is_allowed
insert_properties_allowed f (Json.object props) clean h =
    all_keys-insert is_allowed (codes "properties") (Json.object (map_fields f props)) clean refl h
insert_properties_allowed f Json.null clean h = h
insert_properties_allowed f (Json.bool _) clean h = h
insert_properties_allowed f (Json.number _) clean h = h
insert_properties_allowed f (Json.string _) clean h = h
insert_properties_allowed f (Json.array _) clean h = h

named_allowed :
    (is_allowed (codes "enum") ≡ true)
    × (is_allowed (codes "type") ≡ true)
    × (is_allowed (codes "required") ≡ true)
    × (is_allowed (codes "properties") ≡ true)
unfolding is_allowed
named_allowed = (refl, refl, refl, refl)

clean_field_allowed :
    (f : Json → Json) (key : Bytes) (value : Json) (clean : Fields)
    → all_keys is_allowed clean ≡ true
    → all_keys is_allowed (clean_field f key value clean) ≡ true
unfolding clean_field
clean_field_allowed f key value clean h = ground (
  arith,
  named_allowed.0,
  all_keys-insert is_allowed (codes "enum") (Json.array (Values.value value Values.none_left))
      clean,
  all_keys-insert is_allowed key (one_type value) clean,
  all_keys-insert is_allowed key (sanitize_items f value) clean,
  all_keys-insert is_allowed key value clean,
  insert_properties_allowed f value clean h,
)

clean_fields_allowed :
    (f : Json → Json) (obj clean : Fields)
    → all_keys is_allowed clean ≡ true
    → all_keys is_allowed (clean_fields f obj clean) ≡ true
unfolding clean_fields
clean_fields_allowed f Fields.empty clean h = h
clean_fields_allowed f (Fields.field k v rest) clean h =
    clean_fields_allowed f rest (clean_field f k v clean) (clean_field_allowed f k v clean h)

all_keys-empty : all_keys is_allowed Fields.empty ≡ true
unfolding all_keys
all_keys-empty = refl

-- The three last steps, on a map of accepted fields.
ensure_type_lem :
    (clean : Fields)
    → all_keys is_allowed clean ≡ true
    → (all_keys is_allowed (ensure_type clean) ≡ true)
      × (contains_key (codes "type") (ensure_type clean) ≡ true)
unfolding ensure_type
ensure_type_lem clean h =
    let v = Json.string (codes "object") in
    ground (
      arith,
      all_keys-insert is_allowed (codes "type") v clean named_allowed.1 h,
      get-insert (codes "type") (codes "type") v clean,
    )

abbrev IsObject : Fields → Type 0
IsObject clean =
    (all_keys is_allowed clean ≡ true)
    × (contains_key (codes "type") clean ≡ true)
    × ((not (is_object_type clean) || has_fields (get (codes "properties") clean)) ≡ true)

placeholder : Fields → Fields
placeholder clean =
    insert (codes "required")
      (Json.array (Values.value (Json.string (codes "reason")) Values.none_left))
      (insert (codes "properties") reason clean)

placeholder_lem :
    (clean : Fields)
    → all_keys is_allowed clean ≡ true
    → contains_key (codes "type") clean ≡ true
    → IsObject (placeholder clean)
unfolding placeholder
placeholder_lem clean h t =
    let r = Json.array (Values.value (Json.string (codes "reason")) Values.none_left) in
    let m = insert (codes "properties") reason clean in
    let a = all_keys-insert is_allowed (codes "properties") reason clean named_allowed.3 h in
    let b = all_keys-insert is_allowed (codes "required") r m named_allowed.2 a in
    let c : get (codes "type") (insert (codes "required") r m) ≡ get (codes "type") clean =
      get-insert (codes "type") (codes "required") r m
      ∙ get-insert (codes "type") (codes "properties") reason clean in
    let d : get (codes "properties") (insert (codes "required") r m) ≡ some reason =
      get-insert (codes "properties") (codes "required") r m
      ∙ get-insert (codes "properties") (codes "properties") reason clean in
    (b, rw c t, ground (arith, d))

add_placeholder_lem :
    (clean : Fields)
    → all_keys is_allowed clean ≡ true
    → contains_key (codes "type") clean ≡ true
    → IsObject (add_placeholder clean)
unfolding add_placeholder placeholder
add_placeholder_lem clean h t = ground (arith, placeholder_lem clean h t)

-- `required` may change; a type and the properties stay.
put_required_lem :
    (valid : Values) (clean : Fields)
    → IsObject clean
    → IsObject (put_required valid clean)
      × (get (codes "properties") (put_required valid clean) ≡ get (codes "properties") clean)
unfolding put_required
put_required_lem Values.none_left clean h =
    let t = get-remove_ne (codes "type") (codes "required") clean refl in
    let p = get-remove_ne (codes "properties") (codes "required") clean refl in
    ground (arith, all_keys-remove is_allowed (codes "required") clean h.0, t, p, h)
put_required_lem (Values.value v rest) clean h =
    let r = Json.array (Values.value v rest) in
    let t = get-insert (codes "type") (codes "required") r clean in
    let p = get-insert (codes "properties") (codes "required") r clean in
    ground
      (arith, all_keys-insert is_allowed (codes "required") r clean named_allowed.2 h.0, t, p, h)

is_clean_of :
    (clean : Fields)
    → IsObject clean
    → required_exists (get (codes "required") clean) (get (codes "properties") clean) ≡ true
    → is_clean clean ≡ true
unfolding is_clean
is_clean_of clean h r = rw (h.0, h.1, h.2, r) refl

is_clean-put_required :
    (valid : Values) (props clean : Fields)
    → IsObject clean
    → get (codes "properties") clean ≡ some (Json.object props)
    → all_values (is_property props) valid ≡ true
    → is_clean (put_required valid clean) ≡ true
unfolding put_required
is_clean-put_required Values.none_left props clean h p v =
    let kept = put_required_lem Values.none_left clean h in
    let none_left = get-remove (codes "required") clean in
    is_clean_of (remove (codes "required") clean) kept.0 (rw none_left refl)
is_clean-put_required (Values.value r rest) props clean h p v =
    let arr = Json.array (Values.value r rest) in
    let kept = put_required_lem (Values.value r rest) clean h in
    let put = get-insert (codes "required") (codes "required") arr clean in
    let props_kept = kept.1 ∙ p in
    is_clean_of (insert (codes "required") arr clean) kept.0 (rw (put, props_kept) v)

is_clean-with_required :
    (o p : Option Json) (clean : Fields)
    → IsObject clean
    → get (codes "required") clean ≡ o
    → get (codes "properties") clean ≡ p
    → is_clean (with_required o p clean) ≡ true
unfolding with_required
is_clean-with_required (some (Json.array required)) (some (Json.object props)) clean h e f =
    is_clean-put_required (filter (is_property props) required) props clean h f
      (all_values-filter (is_property props) required)
is_clean-with_required o p clean h e f = is_clean_of clean h (ground (arith, e, f))

finish_clean :
    (clean : Fields)
    → all_keys is_allowed clean ≡ true
    → is_clean (check_required (add_placeholder (ensure_type clean))) ≡ true
unfolding check_required
finish_clean clean h =
    let typed = ensure_type_lem clean h in
    let filled = add_placeholder_lem (ensure_type clean) typed.0 typed.1 in
    let last = add_placeholder (ensure_type clean) in
    is_clean-with_required (get (codes "required") last) (get (codes "properties") last) last filled
      refl refl

abbrev pub IsCleanValue : Json → Type 0
IsCleanValue (Json.object fields) = is_clean fields ≡ true
IsCleanValue _ = Unit

sanitize_object-clean :
    (f : Json → Json) (obj : Fields) (o : Option Json)
    → ((v : Json) → IsCleanValue (f v))
    → IsCleanValue (sanitize_object f obj o)
unfolding sanitize_object
sanitize_object-clean f obj none h =
    finish_clean (clean_fields f obj Fields.empty)
      (clean_fields_allowed f obj Fields.empty all_keys-empty)
sanitize_object-clean f obj (some v) h = h (merged (get (codes "description") obj) v)

sanitize_within-clean :
    (fuel : ℕ) (schema : Json) → IsCleanValue (sanitize_within Json.null fuel schema)
unfolding sanitize_within
sanitize_within-clean zero schema = tt
sanitize_within-clean (suc fuel) (Json.object obj) =
    sanitize_object-clean (sanitize_within Json.null fuel) obj (variant_of obj)
      (sanitize_within-clean fuel)
sanitize_within-clean (suc fuel) Json.null = tt
sanitize_within-clean (suc fuel) (Json.bool _) = tt
sanitize_within-clean (suc fuel) (Json.number _) = tt
sanitize_within-clean (suc fuel) (Json.string _) = tt
sanitize_within-clean (suc fuel) (Json.array _) = tt

-- An object schema that no variant stands for.
abbrev pub is_plain : Json → Bool
is_plain (Json.object obj) = not (is_some (variant_of obj))
is_plain _ = false

abbrev pub is_object : Json → Bool
is_object (Json.object _) = true
is_object _ = false

sanitize_object-is_object :
    (f : Json → Json) (obj : Fields) (o : Option Json)
    → (is_some o || is_object (sanitize_object f obj o)) ≡ true
unfolding sanitize_object
sanitize_object-is_object f obj none = refl
sanitize_object-is_object f obj (some v) = refl

sanitize_within-is_object :
    (fuel : ℕ) (schema : Json)
    → (not (is_plain schema) || is_object (sanitize_within Json.null (suc fuel) schema)) ≡ true
unfolding sanitize_within
sanitize_within-is_object fuel (Json.object obj) =
    ground (arith, sanitize_object-is_object (sanitize_within Json.null fuel) obj (variant_of obj))
sanitize_within-is_object fuel Json.null = refl
sanitize_within-is_object fuel (Json.bool _) = refl
sanitize_within-is_object fuel (Json.number _) = refl
sanitize_within-is_object fuel (Json.string _) = refl
sanitize_within-is_object fuel (Json.array _) = refl

-- An object schema without variants comes out as an object. Whatever schema comes in, if an object
-- comes out then all its own fields are ones that the upstream accepts, and it has a type; of the
-- type object it has properties; and if it has both properties and a list of required ones, that
-- list is not empty and names only properties that it has. Of a list of required ones without
-- properties nothing is said.
pub sanitize_schema-clean :
    (fuel : ℕ) (schema : Json)
    → let cleaned = sanitize_schema (suc fuel) schema in
      ((not (is_plain schema) || is_object cleaned) ≡ true) × IsCleanValue cleaned
unfolding sanitize_schema
sanitize_schema-clean fuel schema =
    (sanitize_within-is_object fuel schema, sanitize_within-clean (suc fuel) schema)
