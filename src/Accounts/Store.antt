-- ===== src/Accounts/Store.antt =====
-- `AccountStore`: adding, updating and removing accounts.
use agcp.Prelude.{
  Bool, true, false, not, Option, none, some, List, [], ◌∷◌, ltb, length, any, filter,
  if◌then◌else◌,
}
use agcp.Prelude.Text.{Bytes, text_eq, is_some}
use agcp.Accounts.Account.{Account}
use agcp.Accounts.Floats.{Floats}

pub data SelectionStrategy : Type 0 where
  sticky round_robin hybrid : SelectionStrategy

-- The second if the first is there: `if account.f.is_some() { existing.f = account.f }`.
abbrev pub or_keep {ℓ} : {A : Type ℓ} → Option A → Option A → Option A
or_keep none old = old
or_keep (some a) old = some a

module _ (fl : Floats) where
  open fl use {F64, lit}

  pub record AccountStore : Type 0 where
    pub accounts : List (Account fl)
    pub active_account_id : Option Bytes
    pub strategy : SelectionStrategy
    pub quota_threshold : F64

  unfoldable pub default : AccountStore
  default = record {
    accounts = [];
    active_account_id = none;
    strategy = hybrid;
    quota_threshold = lit 1 10;
  }

  -- What `add_account` does to the account that is there already.
  unfoldable pub update : Account fl → Account fl → Account fl
  update account existing = record existing {
    refresh_token = account.refresh_token;
    enabled = true;
    is_invalid = false;
    invalid_reason = none;
    project_id = or_keep account.project_id existing.project_id;
    subscription_tier = or_keep account.subscription_tier existing.subscription_tier;
    access_token = or_keep account.access_token existing.access_token;
    access_token_expires =
        if is_some account.access_token
        then account.access_token_expires
        else existing.access_token_expires;
  }

  -- The first account with the email is updated; where there is none, the new one goes to the end.
  unfoldable pub add_to : Account fl → List (Account fl) → List (Account fl)
  unfolding update
  add_to account [] = account ∷ []
  add_to account (a ∷ accounts) =
      let rest = add_to account accounts in
      if text_eq a.email account.email then update account a ∷ accounts else a ∷ rest

  unfoldable pub add_account : Account fl → AccountStore → AccountStore
  unfolding add_to
  add_account account store = record store { accounts = add_to account store.accounts }

  abbrev pub is_id : Bytes → Account fl → Bool
  is_id id a = text_eq a.id id

  abbrev pub names : Bytes → Option Bytes → Bool
  names id none = false
  names id (some active) = text_eq active id

  unfoldable pub remove_account : Bytes → AccountStore → AccountStore × Bool
  remove_account id store =
      let kept = filter (λ a. not (is_id id a)) store.accounts in
      (
        record store {
          accounts = kept;
          active_account_id =
              if names id store.active_account_id then none else store.active_account_id;
        },
        ltb (length kept) (length store.accounts),
      )

  unfoldable pub set_active_account : Bytes → AccountStore → AccountStore
  set_active_account id store =
      if any (is_id id) store.accounts then record store { active_account_id = some id } else store
