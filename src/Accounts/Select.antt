-- ===== src/Accounts/Select.antt =====
-- The three selection strategies. `now` is the one clock reading of a selection.
use Prim.Native.Nat.{Ordering}
use agcp.Prelude.{
  ℕ, suc, ◌+◌, ◌-◌, ◌%◌, ◌^◌, Bool, true, false, ◌&&◌, not, Option, none, some, List, [], ◌∷◌, ltb,
  ◌==◌, length, filter, find?, map, get_elem?, if◌then◌else◌,
}
use agcp.Prelude.Text.{Bytes}
use agcp.Accounts.Account.{
  Account, is_usable, is_rate_limited, rate_limit_remaining, is_quota_below_threshold,
  get_quota_fraction,
}
use agcp.Accounts.Floats.{Floats}
use agcp.Accounts.Store.{AccountStore, SelectionStrategy, sticky, round_robin, hybrid, is_id}

module _ (fl : Floats) where
  open fl use {F64, lit, of_nat, add, mul, div, min as fmin, partial_cmp}

  id_of : Option (Account fl) → Option Bytes
  id_of none = none
  id_of (some a) = some a.id

  -- The emergency choice: any enabled account, the active one left as it is.
  unfoldable pub any_enabled : AccountStore fl → AccountStore fl × Option Bytes
  unfolding id_of
  any_enabled store = (store, id_of (find? (λ a. a.enabled) store.accounts))

  -- The chosen account becomes the active one.
  abbrev pub activate : AccountStore fl → Bytes → AccountStore fl × Option Bytes
  activate store id = (record store { active_account_id = some id }, some id)

  -- The account with the active id, if there are both.
  unfoldable pub active_account : AccountStore fl → Option (Account fl)
  active_account store = elim store.active_account_id [
    | none ↦ none
    | some id ↦ find? (is_id fl id) store.accounts
  ]

  -- "Check if rate limit is short (< 2 minutes) - wait instead of switch"
  unfoldable pub stays : ℕ → Bytes → Account fl → Bool
  stays now model a =
      if is_usable fl now model a then true else ltb (rate_limit_remaining fl now model a) 120

  unfoldable pub first_usable : ℕ → Bytes → AccountStore fl → AccountStore fl × Option Bytes
  first_usable now model store = elim (find? (is_usable fl now model) store.accounts) [
    | some a ↦ activate store a.id
    | none ↦ any_enabled store
  ]

  unfoldable pub select_sticky : ℕ → Bytes → AccountStore fl → AccountStore fl × Option Bytes
  select_sticky now model store = elim (active_account store) [
    | none ↦ first_usable now model store
    | some a ↦
        if stays now model a then (store, store.active_account_id) else first_usable now model store
  ]

  -- `usable.iter().position(|a| &a.id == id)`
  unfoldable pub position : Bytes → List (Account fl) → Option ℕ
  position id [] = none
  position id (a ∷ accounts) =
      let rest = position id accounts in
      if is_id fl id a then some 0 else elim rest [ none ↦ none | some i ↦ some (suc i) ]

  unfoldable pub current_idx : Option Bytes → List (Account fl) → ℕ
  unfolding position
  current_idx none usable = 0
  current_idx (some id) usable = elim (position id usable) [ none ↦ 0 | some i ↦ i ]

  unfoldable pub at_index : AccountStore fl → Option (Account fl) → AccountStore fl × Option Bytes
  at_index store none = (store, none)
  at_index store (some a) = activate store a.id

  unfoldable pub rotate : AccountStore fl → List (Account fl) → AccountStore fl × Option Bytes
  rotate store [] = any_enabled store
  rotate store (a ∷ rest) =
      let usable = a ∷ rest in
      at_index store
        (get_elem? usable ((current_idx store.active_account_id usable + 1) % length usable))

  unfoldable pub select_round_robin : ℕ → Bytes → AccountStore fl → AccountStore fl × Option Bytes
  select_round_robin now model store = rotate store (filter (is_usable fl now model) store.accounts)

  -- 100 for an account that was never used, else the minutes since, at most 100.
  freshness : ℕ → ℕ → F64
  freshness now last_used =
      if last_used == 0
      then lit 100 1
      else fmin (div (of_nat ((now + 2 ^ 64 - last_used) % 2 ^ 64)) (lit 60 1)) (lit 100 1)

  unfoldable pub total_score : ℕ → Bytes → Account fl → F64
  unfolding freshness
  total_score now model a =
      let health_score = mul a.health_score (lit 2 1) in
      let token_score =
        mul (mul (div (of_nat a.tokens_available) (lit 50 1)) (lit 100 1)) (lit 5 1) in
      let quota_score = mul (mul (get_quota_fraction fl model a) (lit 100 1)) (lit 3 1) in
      let freshness_score = mul (freshness now a.last_used) (lit 1 10) in
      add (add (add health_score token_score) quota_score) freshness_score

  unfoldable pub is_candidate : ℕ → Bytes → F64 → Account fl → Bool
  is_candidate now model threshold a =
      (a.enabled && not a.is_invalid && not (is_rate_limited fl now model a))
      && not (is_quota_below_threshold fl model threshold a)

  -- `b.1.partial_cmp(&a.1).unwrap_or(Equal)` puts `b` in front of `a` where it is `Greater`.
  unfoldable pub before : Option Ordering → Bool
  before (some Ordering.gt) = true
  before _ = false

  -- A stable sort, the highest score first: a candidate goes behind those with an equal score.
  unfoldable pub insert_by_score : Bytes × F64 → List (Bytes × F64) → List (Bytes × F64)
  unfolding before
  insert_by_score e [] = e ∷ []
  insert_by_score e (f ∷ l) =
      let rest = insert_by_score e l in if before (partial_cmp f.1 e.1) then f ∷ rest else e ∷ f ∷ l

  unfoldable pub sort_by_score : List (Bytes × F64) → List (Bytes × F64)
  unfolding insert_by_score
  sort_by_score [] = []
  sort_by_score (e ∷ l) = insert_by_score e (sort_by_score l)

  unfoldable pub candidates : ℕ → Bytes → AccountStore fl → List (Bytes × F64)
  candidates now model store =
      map (λ a. (a.id, total_score now model a))
        (filter (is_candidate now model store.quota_threshold) store.accounts)

  unfoldable pub best_or_enabled :
      AccountStore fl → List (Bytes × F64) → Option (Account fl) → AccountStore fl × Option Bytes
  best_or_enabled store ((id, _) ∷ _) enabled = activate store id
  best_or_enabled store [] (some a) = activate store a.id
  best_or_enabled store [] none = (store, none)

  unfoldable pub select_hybrid : ℕ → Bytes → AccountStore fl → AccountStore fl × Option Bytes
  select_hybrid now model store =
      best_or_enabled store (sort_by_score (candidates now model store))
        (find? (λ a. a.enabled) store.accounts)

  unfoldable pub by_strategy :
      SelectionStrategy → ℕ → Bytes → AccountStore fl → AccountStore fl × Option Bytes
  by_strategy sticky = select_sticky
  by_strategy round_robin = select_round_robin
  by_strategy hybrid = select_hybrid

  unfoldable pub select_account : ℕ → Bytes → AccountStore fl → AccountStore fl × Option Bytes
  unfolding by_strategy
  select_account now model store = by_strategy store.strategy now model store
