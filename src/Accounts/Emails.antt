-- ===== src/Accounts/Emails.antt =====
-- No two accounts of the store have one e-mail address.
use agcp.Prelude.{
  ℕ, ◌≡◌, refl, Bool, false, ◌||◌, not, Option, none, some, List, [], ◌∷◌, arith, any, filter,
}
use agcp.Prelude.Text.{Bytes, text_eq, text_eq_iff}
use agcp.Accounts.Account.{Account}
use agcp.Accounts.Floats.{Floats}
use agcp.Accounts.Integrity.{Call, add, remove, set_active, select, apply, run}
use agcp.Accounts.Select.{
  any_enabled, first_usable, at_index, rotate, select_sticky, select_round_robin, best_or_enabled,
  select_hybrid, by_strategy,
}
use agcp.Accounts.Store.{
  AccountStore, SelectionStrategy, sticky, round_robin, hybrid, is_id, update, add_to,
  set_active_account,
}

module _ (fl : Floats) where
  open fl use {F64}

  -- Whether an account has the address.
  abbrev pub known : Bytes → List (Account fl) → Bool
  known email = any (λ a. text_eq a.email email)

  abbrev pub IsUnique : List (Account fl) → Type 0
  IsUnique [] = Unit
  IsUnique (a ∷ l) = (known a.email l ≡ false) × IsUnique l

  known-add_to :
      (email : Bytes) (account : Account fl) (l : List (Account fl))
      → known email (add_to fl account l) ≡ (known email l || text_eq account.email email)
  unfolding add_to update
  known-add_to email account [] = ground arith
  known-add_to email account (a ∷ l) = ground (
    arith,
    known-add_to email account l,
    text_eq_iff a.email account.email,
    text_eq_iff a.email email,
    text_eq_iff account.email email,
  )

  add_to-IsUnique :
      (account : Account fl) (l : List (Account fl)) → IsUnique l → IsUnique (add_to fl account l)
  unfolding add_to update
  add_to-IsUnique account [] h = (refl, tt)
  add_to-IsUnique account (a ∷ l) h = ground (
    arith,
    add_to-IsUnique account l,
    known-add_to a.email account l,
    text_eq_iff a.email account.email,
    text_eq_iff account.email a.email,
  )

  known-filter :
      (p : Account fl → Bool) (email : Bytes) (l : List (Account fl))
      → known email l ≡ false
      → known email (filter p l) ≡ false
  known-filter p email [] h = refl
  known-filter p email (a ∷ l) h = ground (arith, known-filter p email l)

  filter-IsUnique :
      (p : Account fl → Bool) (l : List (Account fl)) → IsUnique l → IsUnique (filter p l)
  filter-IsUnique p [] h = h
  filter-IsUnique p (a ∷ l) h = ground (arith, filter-IsUnique p l, known-filter p a.email l)

  first_usable_accounts :
      (now : ℕ) (model : Bytes) (store : AccountStore fl)
      → (first_usable fl now model store).0.accounts ≡ store.accounts
  unfolding first_usable any_enabled
  first_usable_accounts now model store = ground arith

  at_index_accounts :
      (store : AccountStore fl) (o : Option (Account fl))
      → (at_index fl store o).0.accounts ≡ store.accounts
  unfolding at_index
  at_index_accounts store none = refl
  at_index_accounts store (some a) = refl

  rotate_accounts :
      (store : AccountStore fl) (l : List (Account fl))
      → (rotate fl store l).0.accounts ≡ store.accounts
  unfolding rotate any_enabled
  rotate_accounts store [] = refl
  rotate_accounts store (a ∷ l) = at_index_accounts store _

  best_or_enabled_accounts :
      (store : AccountStore fl) (l : List (Bytes × F64)) (o : Option (Account fl))
      → (best_or_enabled fl store l o).0.accounts ≡ store.accounts
  unfolding best_or_enabled
  best_or_enabled_accounts store (e ∷ l) o = refl
  best_or_enabled_accounts store [] (some a) = refl
  best_or_enabled_accounts store [] none = refl

  by_strategy_accounts :
      (strategy : SelectionStrategy) (now : ℕ) (model : Bytes) (store : AccountStore fl)
      → (by_strategy fl strategy now model store).0.accounts ≡ store.accounts
  unfolding by_strategy select_sticky select_round_robin select_hybrid
  by_strategy_accounts sticky now model store =
      ground (arith, first_usable_accounts now model store)
  by_strategy_accounts round_robin now model store = rotate_accounts store _
  by_strategy_accounts hybrid now model store = best_or_enabled_accounts store _ _

  apply-IsUnique :
      (call : Call fl) (store : AccountStore fl)
      → IsUnique store.accounts
      → IsUnique (apply fl call store).accounts
  unfolding apply set_active_account
  apply-IsUnique (add account) store h = add_to-IsUnique account store.accounts h
  apply-IsUnique (remove id) store h = filter-IsUnique (λ a. not (is_id fl id a)) store.accounts h
  apply-IsUnique (set_active id) store h = ground arith
  apply-IsUnique (select now model) store h =
      rw (by_strategy_accounts store.strategy now model store) h

  -- Where no two accounts of the store have one e-mail address, none ever have, whatever accounts
  -- are added and removed, and whatever is selected.
  pub run-IsUnique :
      (calls : List (Call fl)) (store : AccountStore fl)
      → IsUnique store.accounts
      → IsUnique (run fl calls store).accounts
  unfolding run
  run-IsUnique [] store h = h
  run-IsUnique (call ∷ calls) store h =
      run-IsUnique calls (apply fl call store) (apply-IsUnique call store h)
