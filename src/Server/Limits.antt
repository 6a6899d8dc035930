-- ===== src/Server/Limits.antt =====
-- What the result of a request does to the limits of the accounts.
use agcp.Prelude.{
  ℕ, ◌+◌, ◌/◌, ◌%◌, ◌^◌, ◌≡◌, refl, Bool, true, false, Option, none, some, List, [], ◌∷◌, arith,
  ltb, find?, if◌then◌else◌,
}
use agcp.Prelude.Map.{get-insert, get-remove}
use agcp.Prelude.Text.{Bytes, text_eq, text_eq_iff}
use agcp.Error.{Error, ApiError}
use agcp.Accounts.Account.{
  Account, is_rate_limited, record_success, record_failure, set_rate_limit, clear_rate_limit,
  limited,
}
use agcp.Accounts.Floats.{Floats}
use agcp.Accounts.Store.{AccountStore, is_id}
use agcp.Server.Outcome.{
  outcome, with_account, record_outcome, record_outcome-id, record_request_outcome,
  track_request_outcome,
}

abbrev pub until_date : Option ℕ → ℕ → Bool → Bool
until_date none at before = before
until_date (some date) at before = ltb at date

-- Whether an account is limited at an instant, by the result of the request and by whether it was
-- before: not after a success, for the time that the upstream asks for after a rate limit, until
-- the date of an exhausted quota, if it is one, and as before after any other error.
abbrev pub limited_after : (Bytes → Option ℕ) → ℕ → Option Error → ℕ → Bool → Bool
limited_after parse now none at before = false
limited_after parse now (some (Error.api (ApiError.rate_limited retry_after))) at before =
    ltb at ((now + retry_after / 1000) % 2 ^ 64)
limited_after parse now (some (Error.api (ApiError.quota_exhausted _ reset_time))) at before =
    until_date (parse reset_time) at before
limited_after parse now (some _) at before = before

module _ (fl : Floats) where
  limited-success :
      (now at : ℕ) (model other : Bytes) (until : Option ℕ) (a : Account fl)
      → is_rate_limited fl at other (record_outcome fl now model (true, until) a)
        ≡ (if text_eq model other then false else is_rate_limited fl at other a)
  unfolding record_outcome is_rate_limited clear_rate_limit record_success limited
  limited-success now at model other until a = ground (arith, get-remove model other a.rate_limits)

  limited-failure :
      (now at : ℕ) (model other : Bytes) (until : Option ℕ) (a : Account fl)
      → is_rate_limited fl at other (record_outcome fl now model (false, until) a) ≡ (
          if text_eq model other
          then until_date until at (is_rate_limited fl at model a)
          else is_rate_limited fl at other a)
  unfolding record_outcome is_rate_limited set_rate_limit record_failure limited
  limited-failure now at model other none a = ground (arith, text_eq_iff model other)
  limited-failure now at model other (some until) a =
      ground (arith, get-insert model other (record { until = until }) a.rate_limits)

  limited-outcome :
      (parse : Bytes → Option ℕ) (now at : ℕ) (model other : Bytes) (result : Option Error)
      (a : Account fl)
      → is_rate_limited fl at other (record_outcome fl now model (outcome parse now result) a) ≡ (
          if text_eq model other
          then limited_after parse now result at (is_rate_limited fl at model a)
          else is_rate_limited fl at other a)
  unfolding outcome
  limited-outcome parse now at model other none a = limited-success now at model other none a
  limited-outcome parse now at model other (some (Error.api (ApiError.rate_limited r))) a =
      limited-failure now at model other (some ((now + r / 1000) % 2 ^ 64)) a
  limited-outcome parse now at model other (some (Error.api (ApiError.quota_exhausted m r))) a =
      limited-failure now at model other (parse r) a
  limited-outcome parse now at model other (some e) a =
      ground (arith, limited-failure now at model other none a)

  find-with_account :
      (id : Bytes) (f : Account fl → Account fl) (a : Account fl) (l : List (Account fl))
      → (f a).id ≡ a.id
      → find? (is_id fl id) l ≡ some a
      → find? (is_id fl id) (with_account fl id f l) ≡ some (f a)
  unfolding with_account
  find-with_account id f a [] same h = absurd (ground arith)
  find-with_account id f a (b ∷ l) same h = ground (arith, find-with_account id f a l same)

  find-with_account_other :
      (id other : Bytes) (f : Account fl → Account fl) (l : List (Account fl))
      → ((b : Account fl) → (f b).id ≡ b.id)
      → text_eq other id ≡ false
      → find? (is_id fl other) (with_account fl id f l) ≡ find? (is_id fl other) l
  unfolding with_account
  find-with_account_other id other f [] same h = refl
  find-with_account_other id other f (b ∷ l) same h = ground (
    arith,
    find-with_account_other id other f l same h,
    same b,
    text_eq_iff b.id id,
    text_eq_iff b.id other,
    text_eq_iff other id,
  )

  -- After any result of a request, the account that was used, the first one with its id, is limited
  -- for the model as `limited_after` says: not after a success, for the time that a rate limit
  -- asks for, until the date of an exhausted quota, if it is one, and else as before. For any other
  -- model it is limited as before, and the account with any other id is as before.
  pub track_request_outcome_limits :
      (parse : Bytes → Option ℕ) (now at : ℕ) (account_id model other other_id : Bytes)
      (result : Option Error) (a : Account fl) (store : AccountStore fl)
      → find? (is_id fl account_id) store.accounts ≡ some a
      → text_eq other_id account_id ≡ false
      → let store' = track_request_outcome fl parse now account_id model result store in
        (a' : Account fl) × (find? (is_id fl account_id) store'.accounts ≡ some a')
        × (is_rate_limited fl at other a' ≡ (
            if text_eq model other
            then limited_after parse now result at (is_rate_limited fl at model a)
            else is_rate_limited fl at other a))
        × (find? (is_id fl other_id) store'.accounts ≡ find? (is_id fl other_id) store.accounts)
  unfolding track_request_outcome record_request_outcome
  track_request_outcome_limits parse now at account_id model other other_id result a store h ne =
      let r = outcome parse now result in
      let f : Account fl → Account fl = record_outcome fl now model r in
      (
        f a,
        find-with_account account_id f a store.accounts (record_outcome-id fl now model r a) h,
        limited-outcome parse now at model other result a,
        find-with_account_other account_id other_id f store.accounts
            (record_outcome-id fl now model r) ne,
      )
