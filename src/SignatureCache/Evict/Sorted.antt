-- ===== src/SignatureCache/Evict/Sorted.antt =====
-- `entries.sort_by_key(|(_, ts)| *ts)`: a stable sort by the timestamp, and what it keeps.
use agcp.Prelude.{
  ℕ, zero, suc, ◌≤◌, ◌≡◌, refl, Bool, true, false, ◌||◌, List, [], ◌∷◌, arith, leb, length, take,
  any, if◌then◌else◌,
}
use agcp.Prelude.Text.{Bytes, text_eq, text_eq_iff}

unfoldable pub insert_by_key : Bytes × ℕ → List (Bytes × ℕ) → List (Bytes × ℕ)
insert_by_key e [] = e ∷ []
insert_by_key e (f ∷ l) =
    let rest = insert_by_key e l in if leb e.1 f.1 then e ∷ f ∷ l else f ∷ rest

unfoldable pub sort_by_key : List (Bytes × ℕ) → List (Bytes × ℕ)
unfolding insert_by_key
sort_by_key [] = []
sort_by_key (e ∷ l) = insert_by_key e (sort_by_key l)

-- Whether a key stands in the list.
abbrev pub has : Bytes → List (Bytes × ℕ) → Bool
has k = any (λ e. text_eq e.0 k)

abbrev pub IsFresh : List (Bytes × ℕ) → Type 0
IsFresh [] = Unit
IsFresh (e ∷ l) = (has e.0 l ≡ false) × IsFresh l

has-insert_by_key :
    (k : Bytes) (e : Bytes × ℕ) (l : List (Bytes × ℕ))
    → has k (insert_by_key e l) ≡ (text_eq e.0 k || has k l)
unfolding insert_by_key
has-insert_by_key k e [] = ground arith
has-insert_by_key k e (f ∷ l) = ground (arith, has-insert_by_key k e l)

insert_by_key-IsFresh :
    (e : Bytes × ℕ) (l : List (Bytes × ℕ))
    → has e.0 l ≡ false
    → IsFresh l
    → IsFresh (insert_by_key e l)
unfolding insert_by_key
insert_by_key-IsFresh e [] h d = ground arith
insert_by_key-IsFresh e (f ∷ l) h d = ground (
  arith,
  has-insert_by_key f.0 e l,
  insert_by_key-IsFresh e l,
  text_eq_iff e.0 f.0,
  text_eq_iff f.0 e.0,
)

pub has-sort_by_key : (k : Bytes) (l : List (Bytes × ℕ)) → has k (sort_by_key l) ≡ has k l
unfolding sort_by_key
has-sort_by_key k [] = refl
has-sort_by_key k (e ∷ l) =
    ground (arith, has-insert_by_key k e (sort_by_key l), has-sort_by_key k l)

pub sort_by_key-IsFresh : (l : List (Bytes × ℕ)) → IsFresh l → IsFresh (sort_by_key l)
unfolding sort_by_key
sort_by_key-IsFresh [] d = d
sort_by_key-IsFresh (e ∷ l) d =
    insert_by_key-IsFresh e (sort_by_key l) (ground (arith, has-sort_by_key e.0 l))
      (sort_by_key-IsFresh l d.1)

length-insert_by_key :
    (e : Bytes × ℕ) (l : List (Bytes × ℕ)) → length (insert_by_key e l) ≡ suc (length l)
unfolding insert_by_key
length-insert_by_key e [] = refl
length-insert_by_key e (f ∷ l) = ground (arith, length-insert_by_key e l)

pub length-sort_by_key : (l : List (Bytes × ℕ)) → length (sort_by_key l) ≡ length l
unfolding sort_by_key
length-sort_by_key [] = refl
length-sort_by_key (e ∷ l) =
    omega (arith, length-insert_by_key e (sort_by_key l), length-sort_by_key l)

pub has-take : (k : Bytes) (n : ℕ) (l : List (Bytes × ℕ)) → has k (take n l) ≡ true → has k l ≡ true
has-take k zero l h = absurd (ground arith)
has-take k (suc n) [] h = h
has-take k (suc n) (e ∷ l) h = ground (arith, has-take k n l)

pub take-IsFresh : (n : ℕ) (l : List (Bytes × ℕ)) → IsFresh l → IsFresh (take n l)
take-IsFresh zero l d = tt
take-IsFresh (suc n) [] d = d
take-IsFresh (suc n) (e ∷ l) d = ground (arith, take-IsFresh n l, has-take e.0 n l)

-- No entry of the list is older than `t`.
abbrev pub AtLeast : ℕ → List (Bytes × ℕ) → Type 0
AtLeast t [] = Unit
AtLeast t (e ∷ l) = (t ≤ e.1) × AtLeast t l

abbrev pub IsSorted : List (Bytes × ℕ) → Type 0
IsSorted [] = Unit
IsSorted (e ∷ l) = AtLeast e.1 l × IsSorted l

AtLeast-weaken : (s t : ℕ) (l : List (Bytes × ℕ)) → s ≤ t → AtLeast t l → AtLeast s l
AtLeast-weaken s t [] h a = tt
AtLeast-weaken s t (e ∷ l) h a = (omega arith, AtLeast-weaken s t l h a.1)

insert_by_key-AtLeast :
    (t : ℕ) (e : Bytes × ℕ) (l : List (Bytes × ℕ))
    → t ≤ e.1
    → AtLeast t l
    → AtLeast t (insert_by_key e l)
unfolding insert_by_key
insert_by_key-AtLeast t e [] h a = ground arith
insert_by_key-AtLeast t e (f ∷ l) h a = ground (arith, insert_by_key-AtLeast t e l)

insert_by_key-IsSorted :
    (e : Bytes × ℕ) (l : List (Bytes × ℕ)) → IsSorted l → IsSorted (insert_by_key e l)
unfolding insert_by_key
insert_by_key-IsSorted e [] s = ground arith
insert_by_key-IsSorted e (f ∷ l) s =
    ground
      (arith, insert_by_key-IsSorted e l, insert_by_key-AtLeast f.1 e l, AtLeast-weaken e.1 f.1 l)

pub sort_by_key-IsSorted : (l : List (Bytes × ℕ)) → IsSorted (sort_by_key l)
unfolding sort_by_key
sort_by_key-IsSorted [] = tt
sort_by_key-IsSorted (e ∷ l) = insert_by_key-IsSorted e (sort_by_key l) (sort_by_key-IsSorted l)
