-- ===== src/Accounts/Choice.antt =====
-- Which account a selection returns.
use agcp.Prelude.{
  ℕ, ◌+◌, ◌%◌, ◌≡◌, ◌≢◌, refl, Bool, true, false, ◌&&◌, Option, some, List, [], ◌∷◌, arith, any,
  filter, length, ◌∙◌, ap, sym,
}
use native.Mathlib.Nat.{mod-lt}
use agcp.Prelude.Text.{Bytes}
use agcp.Accounts.Account.{Account, is_usable, is_rate_limited, rate_limit_remaining}
use agcp.Accounts.Floats.{Floats}
use agcp.Accounts.Members.{any-filter, get_elem-member, get_elem_lt}
use agcp.Accounts.Select.{
  active_account, stays, select_sticky, current_idx, at_index, rotate, select_round_robin,
}
use agcp.Accounts.Store.{AccountStore, is_id}

module _ (fl : Floats) where
  open fl use {F64}

  -- An account of the list has the id and passes the test.
  abbrev pub Has : (Account fl → Bool) → Bytes → List (Account fl) → Type 0
  Has p id l = any (λ a. is_id fl id a && p a) l ≡ true

  -- What a selection that found an account says: the account passes the test, it is now the
  -- active one, and the accounts are as they were.
  abbrev pub Chooses :
      (Account fl → Bool) → AccountStore fl → AccountStore fl × Option Bytes → Type 0
  Chooses p store r =
      (id : Bytes) × (r.1 ≡ some id)
      × Has p id store.accounts
      × (r.0 ≡ record store { active_account_id = some id })

  rotate-Chooses :
      (p : Account fl → Bool) (store : AccountStore fl) (l : List (Account fl))
      → filter p store.accounts ≡ l
      → l ≢ []
      → Chooses p store (rotate fl store l)
  unfolding rotate at_index
  rotate-Chooses p store [] e h = absurd (h refl)
  rotate-Chooses p store (a ∷ l) e h =
      let i = (current_idx fl store.active_account_id (a ∷ l) + 1) % length (a ∷ l) in
      let (b, found) = get_elem_lt fl i (a ∷ l) (mod-lt _ (omega arith)) in
      (
        b.id,
        rw (found, at_index) refl,
        sym (any-filter fl p (is_id fl b.id) store.accounts)
            ∙ ap (any (is_id fl b.id)) e
            ∙ get_elem-member fl i b (a ∷ l) found,
        rw (found, at_index) refl,
      )

  -- While an account is usable, the rotation returns a usable one and makes it the active one.
  select_round_robin-usable :
      (now : ℕ) (model : Bytes) (store : AccountStore fl)
      → filter (is_usable fl now model) store.accounts ≢ []
      → Chooses (is_usable fl now model) store (select_round_robin fl now model store)
  unfolding select_round_robin
  select_round_robin-usable now model store h =
      rotate-Chooses (is_usable fl now model) store _ refl h

  -- An active account that is not limited is returned even when it is disabled, and nothing
  -- changes.
  pub select_sticky_disabled :
      (now : ℕ) (model : Bytes) (a : Account fl) (store : AccountStore fl)
      → active_account fl store ≡ some a
      → a.enabled ≡ false
      → is_rate_limited fl now model a ≡ false
      → (is_usable fl now model a ≡ false)
        × (select_sticky fl now model store ≡ (store, store.active_account_id))
  unfolding select_sticky stays is_usable is_rate_limited rate_limit_remaining
  select_sticky_disabled now model a store h k l = ground arith
