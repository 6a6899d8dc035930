-- ===== src/Accounts/Members.antt =====
-- Members of the accounts' list and of the list of scored candidates.
use agcp.Prelude.{
  ℕ, zero, suc, ◌≡◌, refl, Bool, true, ◌&&◌, ◌||◌, some, List, [], ◌∷◌, arith, any, filter, find?,
  map, get_elem?, ◌<◌, length,
}
use agcp.Prelude.Text.{Bytes, text_eq, text_eq_iff}
use agcp.Accounts.Account.{Account}
use agcp.Accounts.Floats.{Floats}
use agcp.Accounts.Select.{insert_by_score, sort_by_score}
use agcp.Accounts.Store.{is_id}

module _ (fl : Floats) where
  open fl use {F64}

  pub find-member :
      (p : Account fl → Bool) (a : Account fl) (l : List (Account fl))
      → find? p l ≡ some a
      → any (is_id fl a.id) l ≡ true
  find-member p a [] h = absurd (ground arith)
  find-member p a (b ∷ l) h = ground (arith, find-member p a l, text_eq_iff a.id a.id)

  pub any-filter :
      (p q : Account fl → Bool) (l : List (Account fl))
      → any q (filter p l) ≡ any (λ a. q a && p a) l
  any-filter p q [] = refl
  any-filter p q (a ∷ l) = ground (arith, any-filter p q l)

  pub any-filter-any :
      (p : Account fl → Bool) (id : Bytes) (l : List (Account fl))
      → any (is_id fl id) (filter p l) ≡ true
      → any (is_id fl id) l ≡ true
  any-filter-any p id [] h = h
  any-filter-any p id (b ∷ l) h = ground (arith, any-filter-any p id l)

  pub get_elem-member :
      (i : ℕ) (a : Account fl) (l : List (Account fl))
      → get_elem? l i ≡ some a
      → any (is_id fl a.id) l ≡ true
  get_elem-member i a [] h = absurd (ground arith)
  get_elem-member zero a (b ∷ l) h = ground (arith, text_eq_iff a.id a.id)
  get_elem-member (suc i) a (b ∷ l) h = ground (arith, get_elem-member i a l)

  -- Whether an id is among scored candidates, with a score that passes a test.
  abbrev pub scored : (F64 → Bool) → Bytes → List (Bytes × F64) → Bool
  scored q id = any (λ e. text_eq e.0 id && q e.1)

  scored-insert :
      (q : F64 → Bool) (id : Bytes) (e : Bytes × F64) (l : List (Bytes × F64))
      → scored q id (insert_by_score fl e l) ≡ ((text_eq e.0 id && q e.1) || scored q id l)
  unfolding insert_by_score
  scored-insert q id e [] = ground arith
  scored-insert q id e (f ∷ l) = ground (arith, scored-insert q id e l)

  pub scored-sort :
      (q : F64 → Bool) (id : Bytes) (l : List (Bytes × F64))
      → scored q id (sort_by_score fl l) ≡ scored q id l
  unfolding sort_by_score
  scored-sort q id [] = refl
  scored-sort q id (e ∷ l) =
      ground (arith, scored-insert q id e (sort_by_score fl l), scored-sort q id l)

  pub scored-map :
      (q : F64 → Bool) (score : Account fl → F64) (id : Bytes) (l : List (Account fl))
      → scored q id (map (λ a. (a.id, score a)) l) ≡ any (λ a. is_id fl id a && q (score a)) l
  scored-map q score id [] = refl
  scored-map q score id (a ∷ l) = ground (arith, scored-map q score id l)

  pub scored-map-any :
      (score : Account fl → F64) (id : Bytes) (l : List (Account fl))
      → scored (λ s. true) id (map (λ a. (a.id, score a)) l) ≡ any (is_id fl id) l
  scored-map-any score id [] = refl
  scored-map-any score id (a ∷ l) = ground (arith, scored-map-any score id l)

  pub get_elem_lt :
      (i : ℕ) (l : List (Account fl)) → i < length l → (a : Account fl) × (get_elem? l i ≡ some a)
  get_elem_lt i [] h = absurd (omega arith)
  get_elem_lt zero (b ∷ l) h = (b, refl)
  get_elem_lt (suc i) (b ∷ l) h = get_elem_lt i l (omega arith)
