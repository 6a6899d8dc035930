-- ===== src/Server/Credentials.antt =====
-- `get_account_credentials`: the account that a request uses, and its token. `refresh` is the HTTP
-- call of `refresh_access_token`, and `others` what other requests do to the store meanwhile.
use agcp.Prelude.{
  ℕ, ◌+◌, ◌%◌, ◌^◌, ◌≡◌, refl, Option, none, some, List, [], ◌∷◌, arith, any, find?, if◌then◌else◌,
  ◌⊎◌, inl, inr, ◌∙◌, Option-cases,
}
use agcp.Prelude.Text.{Bytes, codes}
use agcp.Error.{Error, AuthError}
use agcp.Accounts.Account.{Account, consume_token, is_access_token_valid}
use agcp.Accounts.Floats.{Floats}
use agcp.Accounts.Integrity.{Holds, HasActive, select_account-HasActive}
use agcp.Accounts.Select.{select_account}
use agcp.Accounts.Store.{AccountStore, is_id}
use agcp.Server.Outcome.{
  record_outcome-id, with_account, record_outcome, outcome, track_request_outcome,
  record_request_outcome,
}

-- What phase 1 takes out of the store; `token_or_refresh` is a valid access token, or the
-- refresh token.
pub record Lease : Type 0 where
  pub account_id : Bytes
  pub project_id : Bytes
  pub email : Bytes
  pub token_or_refresh : Bytes ⊎ Bytes

pub record Credentials : Type 0 where
  pub access_token : Bytes
  pub project_id : Bytes
  pub account_id : Bytes
  pub email : Bytes

abbrev text_or_empty : Option Bytes → Bytes
text_or_empty none = []
text_or_empty (some s) = s

abbrev no_account : Bytes → Error
no_account text = Error.auth (AuthError.oauth_failed text)

module _ (fl : Floats) where
  abbrev touch : ℕ → Account fl → Account fl
  touch used a = (consume_token fl (record a { last_used = used })).0

  -- `clone().unwrap()` stands behind the check that the token is there.
  abbrev lease : ℕ → Account fl → Lease
  lease now a = record {
    account_id = a.id;
    project_id = text_or_empty a.project_id;
    email = a.email;
    token_or_refresh =
        if is_access_token_valid fl now a
        then inl (text_or_empty a.access_token)
        else inr a.refresh_token;
  }

  abbrev use_found :
      ℕ → ℕ → Bytes → AccountStore fl → Option (Account fl) → AccountStore fl × (Lease ⊎ Error)
  use_found used now id store none = (store, inr (no_account (codes "Selected account not found")))
  use_found used now id store (some a) = (
    record store { accounts = with_account fl id (touch used) store.accounts },
    inl (lease now (touch used a)),
  )

  abbrev use_selected : ℕ → ℕ → AccountStore fl × Option Bytes → AccountStore fl × (Lease ⊎ Error)
  use_selected used now (store, none) = (
    store,
    inr (no_account (codes "No enabled accounts available. Run 'agcp login' to add an account.")),
  )
  use_selected used now (store, some id) =
      use_found used now id store (find? (is_id fl id) store.accounts)

  -- Phase 1, under the lock: `now` is the clock of the choice, `used` that of the use and `then_now`
  -- that of the test of the token.
  unfoldable pub select_and_use :
      ℕ → ℕ → ℕ → Bytes → AccountStore fl → AccountStore fl × (Lease ⊎ Error)
  unfolding select_account consume_token is_access_token_valid with_account
  select_and_use now used then_now model store =
      use_selected used then_now (select_account fl now model store)

  abbrev set_token : Bytes → ℕ → Account fl → Account fl
  set_token new_token expires a = record a {
    access_token = some new_token;
    access_token_expires = some expires;
  }

  -- Phase 3, under the lock again.
  unfoldable pub store_refreshed : ℕ → Bytes → Bytes × ℕ → AccountStore fl → AccountStore fl
  unfolding with_account
  store_refreshed now id (new_token, expires_in) store = record store {
    accounts =
        with_account fl id (set_token new_token ((now + expires_in) % 2 ^ 64)) store.accounts;
  }

  abbrev credentials : Bytes → Lease → Credentials
  credentials token l = record {
    access_token = token;
    project_id = l.project_id;
    account_id = l.account_id;
    email = l.email;
  }

  abbrev pub with_refreshed :
      ℕ
      → (AccountStore fl → AccountStore fl)
      → Lease
      → (Bytes × ℕ) ⊎ Error
      → AccountStore fl
      → AccountStore fl × (Credentials ⊎ Error)
  with_refreshed refreshed others l (inr e) store = (others store, inr e)
  with_refreshed refreshed others l (inl answer) store =
      (store_refreshed refreshed l.account_id answer (others store), inl (credentials answer.0 l))

  abbrev with_token :
      ℕ
      → (AccountStore fl → AccountStore fl)
      → (Bytes → (Bytes × ℕ) ⊎ Error)
      → Lease
      → Bytes ⊎ Bytes
      → AccountStore fl
      → AccountStore fl × (Credentials ⊎ Error)
  with_token refreshed others refresh l (inl token) store = (store, inl (credentials token l))
  with_token refreshed others refresh l (inr refresh_token) store =
      with_refreshed refreshed others l (refresh refresh_token) store

  abbrev with_lease :
      ℕ
      → (AccountStore fl → AccountStore fl)
      → (Bytes → (Bytes × ℕ) ⊎ Error)
      → AccountStore fl × (Lease ⊎ Error)
      → AccountStore fl × (Credentials ⊎ Error)
  with_lease refreshed others refresh (store, inr e) = (store, inr e)
  with_lease refreshed others refresh (store, inl l) =
      with_token refreshed others refresh l l.token_or_refresh store

  unfoldable pub get_account_credentials :
      ℕ
      → ℕ
      → ℕ
      → ℕ
      → (AccountStore fl → AccountStore fl)
      → (Bytes → (Bytes × ℕ) ⊎ Error)
      → Bytes
      → AccountStore fl
      → AccountStore fl × (Credentials ⊎ Error)
  unfolding select_and_use store_refreshed
  get_account_credentials now used then_now refreshed others refresh model store =
      with_lease refreshed others refresh (select_and_use now used then_now model store)

  with_account-any :
      (id other : Bytes) (f : Account fl → Account fl) (accounts : List (Account fl))
      → ((a : Account fl) → (f a).id ≡ a.id)
      → any (is_id fl other) (with_account fl id f accounts) ≡ any (is_id fl other) accounts
  unfolding with_account
  with_account-any id other f [] same = refl
  with_account-any id other f (a ∷ accounts) same =
      ground (arith, with_account-any id other f accounts same, same a)

  with_account-Holds :
      (id : Bytes) (f : Account fl → Account fl) (accounts : List (Account fl))
      (active : Option Bytes)
      → ((a : Account fl) → (f a).id ≡ a.id)
      → Holds fl accounts active
      → Holds fl (with_account fl id f accounts) active
  with_account-Holds id f accounts none same h = tt
  with_account-Holds id f accounts (some active) same h =
      with_account-any id active f accounts same ∙ h

  touch-id : (used : ℕ) (a : Account fl) → (touch used a).id ≡ a.id
  unfolding consume_token
  touch-id used a = ground arith

  use_selected-HasActive :
      (used now : ℕ) (r : AccountStore fl × Option Bytes)
      → HasActive fl r.0
      → HasActive fl (use_selected used now r).0
  use_selected-HasActive used now (store, none) h = h
  use_selected-HasActive used now (store, some id) h =
      elim (Option-cases (find? (is_id fl id) store.accounts)) [
        | inl e ↦ rw e h
        | inr (a, e) ↦ rw e (
            with_account-Holds id (touch used) store.accounts store.active_account_id
              (touch-id used) h)
      ]

  with_refreshed-HasActive :
      (refreshed : ℕ) (others : AccountStore fl → AccountStore fl) (l : Lease)
      (answer : (Bytes × ℕ) ⊎ Error) (store : AccountStore fl)
      → HasActive fl (others store)
      → HasActive fl (with_refreshed refreshed others l answer store).0
  unfolding store_refreshed
  with_refreshed-HasActive refreshed others l (inr e) store h = h
  with_refreshed-HasActive refreshed others l (inl (token, expires_in)) store h =
      with_account-Holds l.account_id (set_token token ((refreshed + expires_in) % 2 ^ 64))
        (others store).accounts (others store).active_account_id (λ a. refl) h

  with_token-HasActive :
      (refreshed : ℕ) (others : AccountStore fl → AccountStore fl)
      (refresh : Bytes → (Bytes × ℕ) ⊎ Error) (l : Lease) (t : Bytes ⊎ Bytes)
      (store : AccountStore fl)
      → ((s : AccountStore fl) → HasActive fl s → HasActive fl (others s))
      → HasActive fl store
      → HasActive fl (with_token refreshed others refresh l t store).0
  with_token-HasActive refreshed others refresh l (inl token) store keeps h = h
  with_token-HasActive refreshed others refresh l (inr refresh_token) store keeps h =
      with_refreshed-HasActive refreshed others l (refresh refresh_token) store (keeps store h)

  with_lease-HasActive :
      (refreshed : ℕ) (others : AccountStore fl → AccountStore fl)
      (refresh : Bytes → (Bytes × ℕ) ⊎ Error) (r : AccountStore fl × (Lease ⊎ Error))
      → ((s : AccountStore fl) → HasActive fl s → HasActive fl (others s))
      → HasActive fl r.0
      → HasActive fl (with_lease refreshed others refresh r).0
  with_lease-HasActive refreshed others refresh (store, inr e) keeps h = h
  with_lease-HasActive refreshed others refresh (store, inl l) keeps h =
      with_token-HasActive refreshed others refresh l l.token_or_refresh store keeps h

  -- A request leaves the active id that of an account: the choice with the use of its account,
  -- the refresh of its token, whatever others do to the store meanwhile as long as they keep
  -- this, and the outcome that is recorded in the end.
  get_account_credentials-track_request_outcome :
      (parse_from_rfc3339 : Bytes → Option ℕ) (now used then_now refreshed done : ℕ)
      (others : AccountStore fl → AccountStore fl) (refresh : Bytes → (Bytes × ℕ) ⊎ Error)
      (model account_id : Bytes) (result : Option Error) (store : AccountStore fl)
      → ((s : AccountStore fl) → HasActive fl s → HasActive fl (others s))
      → HasActive fl store
      → let leased =
          (get_account_credentials now used then_now refreshed others refresh model store).0 in
        HasActive fl leased
        × HasActive fl
            (track_request_outcome fl parse_from_rfc3339 done account_id model result leased)
  unfolding get_account_credentials select_and_use track_request_outcome record_request_outcome
  get_account_credentials-track_request_outcome parse now used then_now refreshed done others
        refresh model account_id result store keeps h =
      let kept =
        with_lease-HasActive refreshed others refresh (select_and_use now used then_now model store)
          keeps
          (use_selected-HasActive used then_now (select_account fl now model store)
            (select_account-HasActive fl now model store h)) in
      let leased =
        (get_account_credentials now used then_now refreshed others refresh model store).0 in
      (
        kept,
        with_account-Holds account_id (record_outcome fl done model (outcome parse done result))
            leased.accounts leased.active_account_id
            (record_outcome-id fl done model (outcome parse done result)) kept,
      )
