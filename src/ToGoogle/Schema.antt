-- ===== src/ToGoogle/Schema.antt =====
-- `sanitize_schema`. The fuel bounds the calls inside each other; the size of the schema is enough.
use agcp.Prelude.{
  ℕ, zero, suc, Bool, true, false, ◌&&◌, not, Option, none, ◌>>=◌, some, List, [], ◌∷◌, any,
  if◌then◌else◌,
}
use agcp.Prelude.Text.{Bytes, codes, text_eq}
use agcp.Format.Json.{
  Json, Values, Fields, get, contains_key, insert, remove, as_str, find, filter, map_values,
  map_fields, one_field,
}

abbrev pub allowed_fields : List Bytes
allowed_fields =
    codes "type"
    ∷ codes "description"
    ∷ codes "properties"
    ∷ codes "required"
    ∷ codes "items"
    ∷ codes "enum"
    ∷ []

-- `ALLOWED_FIELDS.contains`
unfoldable pub is_allowed : Bytes → Bool
is_allowed key = any (text_eq key) allowed_fields

abbrev pub is_text : Bytes → Option Bytes → Bool
is_text s none = false
is_text s (some t) = text_eq t s

-- `v.get("type").and_then(as_str)`; a value that is no object has no fields.
abbrev pub type_of : Json → Option Bytes
type_of (Json.object fields) = get (codes "type") fields >>= as_str
type_of _ = none

abbrev pub as_array : Json → Option Values
as_array (Json.array arr) = some arr
as_array _ = none

abbrev pub or_else : Option Json → Option Json → Option Json
or_else none second = second
or_else (some v) second = some v

-- The first variant of `anyOf` or `oneOf` that is not null.
unfoldable pub variant_of : Fields → Option Json
unfolding get find
variant_of obj =
    or_else (get (codes "anyOf") obj) (get (codes "oneOf") obj)
    >>= as_array
    >>= find (λ v. not (is_text (codes "null") (type_of v)))

-- The variant with the description of its parent, if it has none.
unfoldable pub merged : Option Json → Json → Json
unfolding insert
merged none variant = variant
merged (some desc) (Json.object fields) = Json.object (
    if contains_key (codes "description") fields
    then fields
    else insert (codes "description") desc fields)
merged (some desc) variant = variant

abbrev or_string : Option Json → Json
or_string none = Json.string (codes "string")
or_string (some v) = v

-- The first type that is not null.
unfoldable pub one_type : Json → Json
unfolding find
one_type (Json.array arr) = or_string (find (λ t. not (is_text (codes "null") (as_str t))) arr)
one_type other = other

unfoldable pub sanitize_items : (Json → Json) → Json → Json
unfolding map_values
sanitize_items f (Json.array arr) = Json.array (map_values f arr)
sanitize_items f (Json.object fields) = f (Json.object fields)
sanitize_items f value = value

unfoldable pub insert_properties : (Json → Json) → Json → Fields → Fields
unfolding map_fields insert
insert_properties f (Json.object props) clean =
    insert (codes "properties") (Json.object (map_fields f props)) clean
insert_properties f value clean = clean

-- One field of the schema, with `f` for the schemas in it.
unfoldable pub clean_field : (Json → Json) → Bytes → Json → Fields → Fields
unfolding is_allowed one_type sanitize_items insert_properties insert
clean_field f key value clean =
    if text_eq key (codes "const")
    then insert (codes "enum") (Json.array (Values.value value Values.none_left)) clean
    else if not (is_allowed key)
    then clean
    else if text_eq key (codes "type")
    then insert key (one_type value) clean
    else if text_eq key (codes "properties")
    then insert_properties f value clean
    else if text_eq key (codes "items")
    then insert key (sanitize_items f value) clean
    else insert key value clean

unfoldable pub clean_fields : (Json → Json) → Fields → Fields → Fields
unfolding clean_field
clean_fields f Fields.empty clean = clean
clean_fields f (Fields.field key value rest) clean =
    clean_fields f rest (clean_field f key value clean)

unfoldable pub ensure_type : Fields → Fields
unfolding insert
ensure_type clean =
    if contains_key (codes "type") clean
    then clean
    else insert (codes "type") (Json.string (codes "object")) clean

-- An object with a field in it.
abbrev pub has_fields : Option Json → Bool
has_fields (some (Json.object (Fields.field k v rest))) = true
has_fields _ = false

abbrev pub reason : Json
reason = one_field (codes "reason") (
    Json.object (
      Fields.field (codes "description") (Json.string (codes "Reason for calling this tool"))
        (Fields.field (codes "type") (Json.string (codes "string")) Fields.empty)))

abbrev pub is_object_type : Fields → Bool
is_object_type clean = is_text (codes "object") (get (codes "type") clean >>= as_str)

unfoldable pub add_placeholder : Fields → Fields
unfolding insert
add_placeholder clean =
    if is_object_type clean && not (has_fields (get (codes "properties") clean))
    then insert (codes "required")
        (Json.array (Values.value (Json.string (codes "reason")) Values.none_left))
        (insert (codes "properties") reason clean)
    else clean

abbrev key_of : Fields → Option Bytes → Bool
key_of props none = false
key_of props (some k) = contains_key k props

abbrev pub is_property : Fields → Json → Bool
is_property props r = key_of props (as_str r)

unfoldable pub put_required : Values → Fields → Fields
unfolding insert remove
put_required Values.none_left clean = remove (codes "required") clean
put_required valid clean = insert (codes "required") (Json.array valid) clean

unfoldable pub with_required : Option Json → Option Json → Fields → Fields
unfolding filter put_required
with_required (some (Json.array required)) (some (Json.object props)) clean =
    put_required (filter (is_property props) required) clean
with_required _ _ clean = clean

unfoldable pub check_required : Fields → Fields
unfolding get with_required
check_required clean =
    with_required (get (codes "required") clean) (get (codes "properties") clean) clean

-- An object, with `f` for the schemas in it and for the variant that stands for it.
unfoldable pub sanitize_object : (Json → Json) → Fields → Option Json → Json
unfolding merged clean_fields ensure_type add_placeholder check_required
sanitize_object f obj (some variant) = f (merged (get (codes "description") obj) variant)
sanitize_object f obj none =
    Json.object (check_required (add_placeholder (ensure_type (clean_fields f obj Fields.empty))))

-- `exhausted` stands for the result where the fuel has run out.
unfoldable pub sanitize_within : Json → ℕ → Json → Json
unfolding variant_of sanitize_object map_values
sanitize_within exhausted zero schema = exhausted
sanitize_within exhausted (suc fuel) (Json.object obj) =
    sanitize_object (sanitize_within exhausted fuel) obj (variant_of obj)
sanitize_within exhausted (suc fuel) (Json.array arr) =
    Json.array (map_values (sanitize_within exhausted fuel) arr)
sanitize_within exhausted (suc fuel) other = other

unfoldable pub sanitize_schema : ℕ → Json → Json
unfolding sanitize_within
sanitize_schema fuel schema = sanitize_within Json.null fuel schema
