-- ===== src/Format/Json.antt =====
-- JSON values as the JSON library has them: an object is a `BTreeMap`, its keys once each and in
-- order. A number is the text it is printed as.
use agcp.Prelude.{ℕ, ◌+◌, Bool, true, false, Option, none, some, [], ◌∷◌, ltb, ◌==◌, if◌then◌else◌}
use agcp.Prelude.Text.{Bytes, text_eq, is_some}

mutual
  pub data Json : Type 0 where
    null : Json
    bool : Bool → Json
    number : Bytes → Json
    string : Bytes → Json
    array : Values → Json
    object : Fields → Json

  -- `Vec<Value>`
  pub data Values : Type 0 where
    none_left : Values
    value : Json → Values → Values

  -- `Map<String, Value>`
  pub data Fields : Type 0 where
    empty : Fields
    field : Bytes → Json → Fields → Fields

-- The order of the keys, byte by byte.
unfoldable pub text_lt : Bytes → Bytes → Bool
text_lt s [] = false
text_lt [] (b ∷ t) = true
text_lt (a ∷ s) (b ∷ t) = let rest = text_lt s t in if a == b then rest else ltb a b

unfoldable pub get : Bytes → Fields → Option Json
get k Fields.empty = none
get k (Fields.field j v rest) = if text_eq j k then some v else get k rest

abbrev pub contains_key : Bytes → Fields → Bool
contains_key k fields = is_some (get k fields)

unfoldable pub insert : Bytes → Json → Fields → Fields
unfolding text_lt
insert k v Fields.empty = Fields.field k v Fields.empty
insert k v (Fields.field j w rest) =
    let later = insert k v rest in
    if text_eq j k
    then Fields.field k v rest
    else if text_lt k j
    then Fields.field k v (Fields.field j w rest)
    else Fields.field j w later

-- A key stands once in a map, so that what is behind it stays.
unfoldable pub remove : Bytes → Fields → Fields
remove k Fields.empty = Fields.empty
remove k (Fields.field j w rest) =
    let later = remove k rest in if text_eq j k then later else Fields.field j w later

abbrev pub as_str : Json → Option Bytes
as_str (Json.string s) = some s
as_str _ = none

-- `find` on a list.
unfoldable pub find : (Json → Bool) → Values → Option Json
find test Values.none_left = none
find test (Values.value v rest) = let later = find test rest in if test v then some v else later

unfoldable pub filter : (Json → Bool) → Values → Values
filter test Values.none_left = Values.none_left
filter test (Values.value v rest) =
    let later = filter test rest in if test v then Values.value v later else later

unfoldable pub map_values : (Json → Json) → Values → Values
map_values f Values.none_left = Values.none_left
map_values f (Values.value v rest) = Values.value (f v) (map_values f rest)

-- The values of a map, each key kept.
unfoldable pub map_fields : (Json → Json) → Fields → Fields
map_fields f Fields.empty = Fields.empty
map_fields f (Fields.field k v rest) = Fields.field k (f v) (map_fields f rest)

abbrev pub one_field : Bytes → Json → Json
one_field k v = Json.object (Fields.field k v Fields.empty)

-- The number of values in a value, itself counted.
unfoldable mutual
  pub size : Json → ℕ
  size (Json.array arr) = 1 + size_values arr
  size (Json.object fields) = 1 + size_fields fields
  size _ = 1

  pub size_values : Values → ℕ
  size_values Values.none_left = 0
  size_values (Values.value v rest) = size v + size_values rest

  pub size_fields : Fields → ℕ
  size_fields Fields.empty = 0
  size_fields (Fields.field k v rest) = size v + size_fields rest
