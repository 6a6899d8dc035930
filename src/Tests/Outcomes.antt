-- ===== src/Tests/Outcomes.antt =====
-- What requests do to the accounts.
use agcp.Prelude.{ℕ, find?, if◌then◌else◌, false, inl, ◌≡◌, true, refl, none, some, [], Option}
use agcp.Prelude.Text.{text_eq, Bytes, codes, contains, starts_with, to_ascii_lowercase}
use agcp.Error.{Error, ApiError}
use agcp.Format.Google.{GenerateContentResponse}
use agcp.CloudCode.Rounds.{over_endpoints, loop, follow, move_on}
use agcp.CloudCode.Send.{
  Body, Client, Codecs, Reply, request_endpoints, attempt, post, by_result, on_response,
  unless_error, on_google_error,
}
use agcp.CloudCode.Status.{map_google_error}
use agcp.Server.Outcome.{all_limited, track_request_outcome, track_request_outcome-send_request}
use agcp.Accounts.Account.{Account, new, is_rate_limited}
use agcp.Accounts.Store.{is_id, default}
use agcp.Server.Limits.{limited_after, track_request_outcome_limits}
use agcp.Tests.AccountStore.{alice, thousandths, store}
use agcp.CloudCode.Calls.{send_request}
use agcp.CloudCode.Permit.{acquire_request_permit, wait_time}
use agcp.Tests.Upstream.{arrival, env, model}

abbrev exhausted : GenerateContentResponse Bytes
exhausted = record {
  candidates = none;
  usage_metadata = none;
  error = some (record { code = 429; message = codes "quota"; status = codes "DENIED" });
  prompt_feedback = none;
}

abbrev codecs : Codecs
codecs = record { Json = Bytes; from_slice = λ s. inl exhausted; lossy = λ s. s; from_utf8 = some }

abbrev client : Client
client = record { api_timeout = 120_000; max_retries = 0; min_request_interval = 500 }

abbrev reply : ℕ → Option Reply
reply n = some (Reply.response 200 (Body.whole []))

-- No text is a date.
track_request_outcome-send_request_example :
    let e = some (Error.api (ApiError.quota_exhausted (codes "unknown") (codes "unknown"))) in
    all_limited thousandths 300 model
      (track_request_outcome thousandths (λ t. none) 200 (codes "id-a") model e store).accounts
    ≡ all_limited thousandths 300 model store.accounts
unfolding send_request acquire_request_permit wait_time request_endpoints over_endpoints loop follow
    move_on attempt post by_result on_response unless_error on_google_error map_google_error
    contains starts_with to_ascii_lowercase
track_request_outcome-send_request_example =
    track_request_outcome-send_request thousandths env codecs client arrival 900 reply 0 []
      (λ t. none) 200 300 (codes "id-a") model model (codes "unknown") (codes "unknown") store
      (λ ms. refl) refl refl

abbrev refused : Option Error
refused = some (Error.api (ApiError.rate_limited 60_000))

-- A refusal at second 200 with a minute to wait.
track_request_outcome_limits_example :
    let store' =
      track_request_outcome thousandths (λ t. none) 200 (codes "id-a") model refused store in
    (a' : Account thousandths) × (find? (is_id thousandths (codes "id-a")) store'.accounts
      ≡ some a')
    × (is_rate_limited thousandths 259 model a' ≡ (
        if text_eq model model
        then limited_after (λ t. none) 200 refused 259 (is_rate_limited thousandths 259 model alice)
        else is_rate_limited thousandths 259 model alice))
    × (find? (is_id thousandths (codes "id-b")) store'.accounts
        ≡ find? (is_id thousandths (codes "id-b")) store.accounts)
unfolding new default
track_request_outcome_limits_example =
    track_request_outcome_limits thousandths (λ t. none) 200 259 (codes "id-a") model model
      (codes "id-b") refused alice store refl refl

-- Alice is limited for the whole of the minute, and not behind it.
limited_a_minute :
    (limited_after (λ t. none) 200 refused 259 false ≡ true)
    × (limited_after (λ t. none) 200 refused 260 true ≡ false)
limited_a_minute = (refl, refl)
