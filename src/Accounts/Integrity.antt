-- ===== src/Accounts/Integrity.antt =====
-- The active account is one of the store, and no two accounts have one e-mail address.
use agcp.Prelude.{
  ℕ, ◌≡◌, refl, true, false, not, Option, none, some, List, [], ◌∷◌, arith, any, filter, find?,
  get_elem?, if◌then◌else◌, Option-cases, Bool-cases, inl, inr, ◌∙◌,
}
use agcp.Prelude.Text.{Bytes, text_eq, text_eq_iff}
use agcp.Accounts.Account.{Account, is_usable}
use agcp.Accounts.Floats.{Floats}
use agcp.Accounts.Members.{
  find-member, any-filter-any, get_elem-member, scored, scored-sort, scored-map-any,
}
use agcp.Accounts.Select.{
  any_enabled, first_usable, at_index, rotate, select_sticky, select_round_robin, candidates,
  is_candidate, total_score, sort_by_score, best_or_enabled, select_hybrid, by_strategy,
  select_account,
}
use agcp.Accounts.Store.{
  AccountStore, SelectionStrategy, sticky, round_robin, hybrid, is_id, names, add_to, add_account,
  remove_account, set_active_account,
}

module _ (fl : Floats) where
  open fl use {F64}

  abbrev pub Holds : List (Account fl) → Option Bytes → Type 0
  Holds accounts none = Unit
  Holds accounts (some id) = any (is_id fl id) accounts ≡ true

  -- The active id is that of an account.
  abbrev pub HasActive : AccountStore fl → Type 0
  HasActive store = Holds store.accounts store.active_account_id

  add_to-keeps :
      (id : Bytes) (account : Account fl) (l : List (Account fl))
      → any (is_id fl id) l ≡ true
      → any (is_id fl id) (add_to fl account l) ≡ true
  unfolding add_to
  add_to-keeps id account [] h = absurd (ground arith)
  add_to-keeps id account (a ∷ l) h = ground (arith, add_to-keeps id account l)

  filter-keeps :
      (id other : Bytes) (l : List (Account fl))
      → text_eq other id ≡ false
      → any (is_id fl other) (filter (λ a. not (is_id fl id a)) l) ≡ any (is_id fl other) l
  filter-keeps id other [] h = refl
  filter-keeps id other (a ∷ l) h = ground (
    arith,
    filter-keeps id other l,
    text_eq_iff a.id id,
    text_eq_iff a.id other,
    text_eq_iff other id,
  )

  Holds-add :
      (account : Account fl) (l : List (Account fl)) (o : Option Bytes)
      → Holds l o
      → Holds (add_to fl account l) o
  Holds-add account l none h = tt
  Holds-add account l (some id) h = add_to-keeps id account l h

  Holds-remove :
      (id : Bytes) (l : List (Account fl)) (o : Option Bytes)
      → Holds l o
      → Holds (filter (λ a. not (is_id fl id a)) l) (if names fl id o then none else o)
  Holds-remove id l none h = tt
  Holds-remove id l (some active) h = elim (Bool-cases (text_eq active id)) [
    | inl e ↦ rw e tt
    | inr e ↦ rw e (filter-keeps id active l e ∙ h)
  ]

  set_active_account-HasActive :
      (id : Bytes) (store : AccountStore fl)
      → HasActive store
      → HasActive (set_active_account fl id store)
  unfolding set_active_account
  set_active_account-HasActive id store h = ground arith

  first_usable-HasActive :
      (now : ℕ) (model : Bytes) (store : AccountStore fl)
      → HasActive store
      → HasActive (first_usable fl now model store).0
  unfolding first_usable any_enabled
  first_usable-HasActive now model store h =
      elim (Option-cases (find? (is_usable fl now model) store.accounts)) [
        | inl e ↦ rw (e, first_usable) h
        | inr (a, e) ↦
            rw (e, first_usable) (find-member fl (is_usable fl now model) a store.accounts e)
      ]

  select_sticky-HasActive :
      (now : ℕ) (model : Bytes) (store : AccountStore fl)
      → HasActive store
      → HasActive (select_sticky fl now model store).0
  unfolding select_sticky
  select_sticky-HasActive now model store h =
      ground (arith, first_usable-HasActive now model store h)

  at_index-HasActive :
      (store : AccountStore fl) (i : ℕ) (l : List (Account fl))
      → HasActive store
      → ((id : Bytes) → any (is_id fl id) l ≡ true → any (is_id fl id) store.accounts ≡ true)
      → HasActive (at_index fl store (get_elem? l i)).0
  unfolding at_index
  at_index-HasActive store i l h sub = elim (Option-cases (get_elem? l i)) [
    | inl e ↦ rw (e, at_index) h
    | inr (a, e) ↦ rw (e, at_index) (sub a.id (get_elem-member fl i a l e))
  ]

  rotate-HasActive :
      (store : AccountStore fl) (l : List (Account fl))
      → HasActive store
      → ((id : Bytes) → any (is_id fl id) l ≡ true → any (is_id fl id) store.accounts ≡ true)
      → HasActive (rotate fl store l).0
  unfolding rotate any_enabled
  rotate-HasActive store [] h sub = h
  rotate-HasActive store (a ∷ l) h sub = at_index-HasActive store _ (a ∷ l) h sub

  select_round_robin-HasActive :
      (now : ℕ) (model : Bytes) (store : AccountStore fl)
      → HasActive store
      → HasActive (select_round_robin fl now model store).0
  unfolding select_round_robin
  select_round_robin-HasActive now model store h =
      rotate-HasActive store (filter (is_usable fl now model) store.accounts) h
        (λ id. any-filter-any fl (is_usable fl now model) id store.accounts)

  best_or_enabled-HasActive :
      (store : AccountStore fl) (l : List (Bytes × F64)) (o : Option (Account fl))
      → HasActive store
      → ((id : Bytes) → scored fl (λ s. true) id l ≡ true → any (is_id fl id) store.accounts ≡ true)
      → ((a : Account fl) → o ≡ some a → any (is_id fl a.id) store.accounts ≡ true)
      → HasActive (best_or_enabled fl store l o).0
  unfolding best_or_enabled
  best_or_enabled-HasActive store ((id, score) ∷ l) o h best enabled =
      best id (ground (arith, text_eq_iff id id))
  best_or_enabled-HasActive store [] (some a) h best enabled = enabled a refl
  best_or_enabled-HasActive store [] none h best enabled = h

  select_hybrid-HasActive :
      (now : ℕ) (model : Bytes) (store : AccountStore fl)
      → HasActive store
      → HasActive (select_hybrid fl now model store).0
  unfolding select_hybrid candidates
  select_hybrid-HasActive now model store h =
      best_or_enabled-HasActive store (sort_by_score fl (candidates fl now model store))
        (find? (λ a. a.enabled) store.accounts) h
        (λ id p.
          any-filter-any fl (is_candidate fl now model store.quota_threshold) id store.accounts (
            ground (
              arith,
              scored-sort fl (λ s. true) id (candidates fl now model store),
              scored-map-any fl (total_score fl now model) id
                  (filter (is_candidate fl now model store.quota_threshold) store.accounts),
            )))
        (λ a. find-member fl (λ b. b.enabled) a store.accounts)

  by_strategy-HasActive :
      (strategy : SelectionStrategy) (now : ℕ) (model : Bytes) (store : AccountStore fl)
      → HasActive store
      → HasActive (by_strategy fl strategy now model store).0
  unfolding by_strategy
  by_strategy-HasActive sticky = select_sticky-HasActive
  by_strategy-HasActive round_robin = select_round_robin-HasActive
  by_strategy-HasActive hybrid = select_hybrid-HasActive

  pub select_account-HasActive :
      (now : ℕ) (model : Bytes) (store : AccountStore fl)
      → HasActive store
      → HasActive (select_account fl now model store).0
  unfolding select_account
  select_account-HasActive now model store h =
      by_strategy-HasActive store.strategy now model store h

  -- A call that changes the store.
  pub data Call : Type 0 where
    add : Account fl → Call
    remove : Bytes → Call
    set_active : Bytes → Call
    select : ℕ → Bytes → Call

  unfoldable pub apply : Call → AccountStore fl → AccountStore fl
  unfolding add_account remove_account select_account
  apply (add account) store = add_account fl account store
  apply (remove id) store = (remove_account fl id store).0
  apply (set_active id) store = set_active_account fl id store
  apply (select now model) store = (select_account fl now model store).0

  unfoldable pub run : List Call → AccountStore fl → AccountStore fl
  run [] store = store
  run (call ∷ calls) store = run calls (apply call store)

  apply-HasActive :
      (call : Call) (store : AccountStore fl) → HasActive store → HasActive (apply call store)
  unfolding apply
  apply-HasActive (add account) store h = Holds-add account store.accounts store.active_account_id h
  apply-HasActive (remove id) store h = Holds-remove id store.accounts store.active_account_id h
  apply-HasActive (set_active id) store h = set_active_account-HasActive id store h
  apply-HasActive (select now model) store h = select_account-HasActive now model store h

  -- Where the active id, if there is one, names an account of the store, it does so whatever
  -- accounts are then added and removed, and whatever is selected under any strategy.
  pub run-HasActive :
      (calls : List Call) (store : AccountStore fl) → HasActive store → HasActive (run calls store)
  unfolding run
  run-HasActive [] store h = h
  run-HasActive (call ∷ calls) store h =
      run-HasActive calls (apply call store) (apply-HasActive call store h)
