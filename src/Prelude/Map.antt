-- ===== src/Prelude/Map.antt =====
-- `std::collections::HashMap<String, V>` as an association list with one entry for each key. The
-- program reads a map by its keys; where it walks one, the walk is over this list, and what is
-- proved of the walk is proved for every list.
use Prim.Native.Nat.{◌+◌, ◌≤◌}
use mathlib.Core.Path.{◌≡◌, refl}
use mathlib.Core.Bool.{true}
use mathlib.Core.Logic.{inl, inr}
use mathlib.Core.List.{List, [], ◌∷◌}
use mathlib.Core.Option.{Option, none, some}
use native.Mathlib.Omega.{arith}
use agcp.Prelude.Tests.{if◌then◌else◌, Option-cases}
use agcp.Prelude.Lists.{length}
use agcp.Prelude.Text.{Bytes, text_eq, text_eq_iff, is_some}

abbrev pub Map {ℓ} : Type ℓ → Type ℓ
Map V = List (Bytes × V)

module _ {ℓ} {V : Type ℓ} where
  unfoldable pub get : Bytes → Map V → Option V
  get k [] = none
  get k ((j, v) ∷ m) = let rest = get k m in if text_eq j k then some v else rest

  unfoldable pub remove : Bytes → Map V → Map V
  remove k [] = []
  remove k ((j, v) ∷ m) = let rest = remove k m in if text_eq j k then rest else (j, v) ∷ rest

  unfoldable pub insert : Bytes → V → Map V → Map V
  insert k v m = (k, v) ∷ remove k m

  -- No key has two entries.
  abbrev pub IsDistinct : Map V → Type ℓ
  IsDistinct [] = Unit
  IsDistinct ((j, v) ∷ m) = (get j m ≡ none) × IsDistinct m

  pub get-remove :
      (k j : Bytes) (m : Map V) → get j (remove k m) ≡ (if text_eq k j then none else get j m)
  unfolding get remove
  get-remove k j [] = ground arith
  get-remove k j ((i, v) ∷ m) =
      ground (arith, get-remove k j m, text_eq_iff i k, text_eq_iff i j, text_eq_iff k j)

  pub get-insert :
      (k j : Bytes) (v : V) (m : Map V)
      → get j (insert k v m) ≡ (if text_eq k j then some v else get j m)
  unfolding get insert
  get-insert k j v m = ground (arith, get-remove k j m)

  pub get-insert_self : (k : Bytes) (v : V) (m : Map V) → get k (insert k v m) ≡ some v
  get-insert_self k v m = ground (arith, get-insert k k v m, text_eq_iff k k)

  pub length-remove-le : (k : Bytes) (m : Map V) → length (remove k m) ≤ length m
  unfolding remove
  length-remove-le k [] = omega arith
  length-remove-le k ((j, v) ∷ m) = ground (arith, length-remove-le k m)

  pub length-insert-le : (k : Bytes) (v : V) (m : Map V) → length (insert k v m) ≤ length m + 1
  unfolding insert
  length-insert-le k v m = omega (arith, length-remove-le k m)

  pub remove_absent : (k : Bytes) (m : Map V) → get k m ≡ none → remove k m ≡ m
  unfolding get remove
  remove_absent k [] h = refl
  remove_absent k ((j, v) ∷ m) h = ground (arith, remove_absent k m)

  pub length-remove :
      (k : Bytes) (m : Map V) (v : V)
      → IsDistinct m
      → get k m ≡ some v
      → length (remove k m) + 1 ≡ length m
  unfolding get remove
  length-remove k [] v d h = absurd (ground arith)
  length-remove k ((j, w) ∷ m) v d h =
      ground (arith, length-remove k m v, remove_absent k m, text_eq_iff j k)

  pub length-remove_some :
      (k : Bytes) (m : Map V)
      → IsDistinct m
      → is_some (get k m) ≡ true
      → length (remove k m) + 1 ≡ length m
  length-remove_some k m d h = elim (Option-cases (get k m)) [
    | inl e ↦ absurd (ground arith)
    | inr (v, e) ↦ length-remove k m v d e
  ]

  pub length-insert_new :
      (k : Bytes) (v : V) (m : Map V) → get k m ≡ none → length (insert k v m) ≡ length m + 1
  unfolding insert
  length-insert_new k v m h = rw (remove_absent k m h) (omega arith)

  pub remove-IsDistinct : (k : Bytes) (m : Map V) → IsDistinct m → IsDistinct (remove k m)
  unfolding remove
  remove-IsDistinct k [] d = d
  remove-IsDistinct k ((j, v) ∷ m) d = ground (arith, remove-IsDistinct k m, get-remove k j m)

  pub insert-IsDistinct : (k : Bytes) (v : V) (m : Map V) → IsDistinct m → IsDistinct (insert k v m)
  unfolding insert
  insert-IsDistinct k v m d =
      ground (arith, remove-IsDistinct k m, get-remove k k m, text_eq_iff k k)
