-- ===== src/Server/Outcome.antt =====
-- What a result means for the account that was used. `parse_from_rfc3339` gives the Unix time of a
-- date, if the text is one; `now` is the clock in seconds.
use agcp.Prelude.{
  ℕ, ◌+◌, ◌/◌, ◌%◌, ◌^◌, ◌≡◌, refl, Bool, true, false, Option, none, some, List, [], ◌∷◌, arith,
  if◌then◌else◌, inl, inr, sym,
}
use agcp.Prelude.Text.{Bytes, codes, text_eq}
use mathlib.Core.Path.{subst}
use agcp.Prelude.Map.{Map}
use agcp.Error.{Error, ApiError}
use agcp.Accounts.Account.{
  Account, record_success, record_failure, set_rate_limit, clear_rate_limit, is_rate_limited,
}
use agcp.Accounts.Floats.{Floats}
use agcp.Accounts.Store.{AccountStore}
use agcp.RateLimit.Attempts.{RateLimitState}
use agcp.RateLimit.Duration.{format_duration}
use agcp.CloudCode.Rounds.{Env, End}
use agcp.CloudCode.Send.{Client, Codecs, Reply}
use agcp.CloudCode.Calls.{send_request}
use agcp.CloudCode.Permit.{Arrival}
use agcp.CloudCode.Told.{IsTold}
use agcp.CloudCode.Promises.{send_request-IsTold}

-- Whether a request succeeded, and until when the account is limited.
unfoldable pub outcome : (Bytes → Option ℕ) → ℕ → Option Error → Bool × Option ℕ
outcome parse_from_rfc3339 now none = (true, none)
outcome parse_from_rfc3339 now (some (Error.api (ApiError.rate_limited retry_after))) =
    (false, some ((now + retry_after / 1000) % 2 ^ 64))
outcome parse_from_rfc3339 now (some (Error.api (ApiError.quota_exhausted model reset_time))) =
    (false, parse_from_rfc3339 reset_time)
outcome parse_from_rfc3339 now (some _) = (false, none)

module _ (fl : Floats) where
  abbrev limit_until : Bytes → Option ℕ → Account fl → Account fl
  limit_until model none a = a
  limit_until model (some until) a = set_rate_limit fl model until a

  unfoldable pub record_outcome : ℕ → Bytes → Bool × Option ℕ → Account fl → Account fl
  unfolding record_success record_failure set_rate_limit clear_rate_limit
  record_outcome now model (true, until) a = clear_rate_limit fl model (record_success fl now a)
  record_outcome now model (false, until) a = limit_until model until (record_failure fl now a)

  -- `get_account_mut`: the first account with the id.
  unfoldable pub with_account :
      Bytes → (Account fl → Account fl) → List (Account fl) → List (Account fl)
  with_account id f [] = []
  with_account id f (a ∷ accounts) =
      let rest = with_account id f accounts in if text_eq a.id id then f a ∷ accounts else a ∷ rest

  unfoldable pub record_request_outcome :
      ℕ → Bytes → Bytes → Bool × Option ℕ → AccountStore fl → AccountStore fl
  unfolding record_outcome with_account
  record_request_outcome now account_id model result store = record store {
    accounts = with_account account_id (record_outcome now model result) store.accounts;
  }

  unfoldable pub track_request_outcome :
      (Bytes → Option ℕ) → ℕ → Bytes → Bytes → Option Error → AccountStore fl → AccountStore fl
  unfolding outcome record_request_outcome
  track_request_outcome parse_from_rfc3339 now account_id model result store =
      record_request_outcome now account_id model (outcome parse_from_rfc3339 now result) store

  pub record_outcome-id :
      (now : ℕ) (model : Bytes) (result : Bool × Option ℕ) (a : Account fl)
      → (record_outcome now model result a).id ≡ a.id
  unfolding record_outcome record_success record_failure set_rate_limit clear_rate_limit
  record_outcome-id now model (true, until) a = refl
  record_outcome-id now model (false, none) a = refl
  record_outcome-id now model (false, some until) a = refl

  abbrev pub all_limited : ℕ → Bytes → List (Account fl) → List Bool
  all_limited at model [] = []
  all_limited at model (a ∷ accounts) =
      is_rate_limited fl at model a ∷ all_limited at model accounts

  failure_keeps :
      (now at : ℕ) (id model other : Bytes) (accounts : List (Account fl))
      → all_limited at other (with_account id (record_outcome now model (false, none)) accounts)
        ≡ all_limited at other accounts
  unfolding with_account record_outcome is_rate_limited record_failure
  failure_keeps now at id model other [] = refl
  failure_keeps now at id model other (a ∷ accounts) =
      ground (arith, failure_keeps now at id model other accounts)

  told_none :
      (parse_from_rfc3339 : Bytes → Option ℕ) (reset_time : Bytes)
      → ((ms : ℕ) → parse_from_rfc3339 (format_duration ms) ≡ none)
      → parse_from_rfc3339 (codes "unknown") ≡ none
      → IsTold reset_time
      → parse_from_rfc3339 reset_time ≡ none
  told_none parse reset_time d u (inl e) = subst (λ t. parse t ≡ none) (λ i. sym e i) u
  told_none parse reset_time d u (inr (ms, e)) = subst (λ t. parse t ≡ none) (λ i. sym e i) (d ms)

  -- When `send_request` ends with an exhausted quota, no account is limited for any model by it,
  -- as neither a printed duration nor the word "unknown" is a date: the next request may choose
  -- the same account again.
  pub track_request_outcome-send_request :
      (env : Env) (codecs : Codecs) (client : Client) (c : Arrival) (last : ℕ)
      (reply : ℕ → Option Reply) (elapsed : ℕ) (m : Map RateLimitState)
      (parse_from_rfc3339 : Bytes → Option ℕ) (now at : ℕ)
      (account_id model other named reset_time : Bytes) (store : AccountStore fl)
      → ((ms : ℕ) → parse_from_rfc3339 (format_duration ms) ≡ none)
      → parse_from_rfc3339 (codes "unknown") ≡ none
      → (send_request env codecs client model c last reply elapsed m).1.1
        ≡ End.error (Error.api (ApiError.quota_exhausted named reset_time))
      → all_limited at other
          (track_request_outcome parse_from_rfc3339 now account_id model
            (some (Error.api (ApiError.quota_exhausted named reset_time)))
            store).accounts
        ≡ all_limited at other store.accounts
  unfolding track_request_outcome outcome record_request_outcome
  track_request_outcome-send_request env codecs client c last reply elapsed m parse now at
        account_id model other named reset_time store d u e =
      let told =
        send_request-IsTold env codecs client model c last reply elapsed m named reset_time e in
      let p = told_none parse reset_time d u told in
      rw p (failure_keeps now at account_id model other store.accounts)
