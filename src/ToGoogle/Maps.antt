-- ===== src/ToGoogle/Maps.antt =====
-- What `insert`, `remove` and `filter` of the JSON maps do to a key.
use agcp.Prelude.{◌≡◌, refl, Bool, true, false, ◌&&◌, none, some, arith, if◌then◌else◌}
use agcp.Prelude.Text.{Bytes, text_eq, text_eq_iff}
use agcp.Format.Json.{Json, Values, Fields, get, insert, remove, filter}

pub get-insert :
    (j k : Bytes) (v : Json) (m : Fields)
    → get j (insert k v m) ≡ (if text_eq k j then some v else get j m)
unfolding get insert
get-insert j k v Fields.empty = refl
get-insert j k v (Fields.field i w rest) =
    ground (arith, get-insert j k v rest, text_eq_iff i k, text_eq_iff k j, text_eq_iff i j)

pub get-remove_ne : (j k : Bytes) (m : Fields) → text_eq k j ≡ false → get j (remove k m) ≡ get j m
unfolding get remove
get-remove_ne j k Fields.empty h = refl
get-remove_ne j k (Fields.field i w rest) h =
    ground (arith, get-remove_ne j k rest h, text_eq_iff i k, text_eq_iff k j, text_eq_iff i j)

pub get-remove : (k : Bytes) (m : Fields) → get k (remove k m) ≡ none
unfolding get remove
get-remove k Fields.empty = refl
get-remove k (Fields.field i w rest) = ground (arith, get-remove k rest)

-- A test that each key passes.
unfoldable pub all_keys : (Bytes → Bool) → Fields → Bool
all_keys test Fields.empty = true
all_keys test (Fields.field k v rest) = test k && all_keys test rest

pub all_keys-insert :
    (test : Bytes → Bool) (k : Bytes) (v : Json) (m : Fields)
    → test k ≡ true
    → all_keys test m ≡ true
    → all_keys test (insert k v m) ≡ true
unfolding all_keys insert
all_keys-insert test k v Fields.empty h a = ground arith
all_keys-insert test k v (Fields.field i w rest) h a =
    ground (arith, all_keys-insert test k v rest h)

pub all_keys-remove :
    (test : Bytes → Bool) (k : Bytes) (m : Fields)
    → all_keys test m ≡ true
    → all_keys test (remove k m) ≡ true
unfolding all_keys remove
all_keys-remove test k Fields.empty a = refl
all_keys-remove test k (Fields.field i w rest) a = ground (arith, all_keys-remove test k rest)

-- A test that each value passes.
unfoldable pub all_values : (Json → Bool) → Values → Bool
all_values test Values.none_left = true
all_values test (Values.value v rest) = test v && all_values test rest

pub all_values-filter :
    (test : Json → Bool) (arr : Values) → all_values test (filter test arr) ≡ true
unfolding all_values filter
all_values-filter test Values.none_left = refl
all_values-filter test (Values.value v rest) = ground (arith, all_values-filter test rest)
