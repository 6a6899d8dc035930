-- ===== src/Accounts/Account.antt =====
-- `Account` and its methods. Times are seconds of the Unix clock, one reading for each call; a
-- counter wraps at its width, as in a release build.
use agcp.Prelude.{
  ℕ, ◌+◌, ◌-◌, ◌%◌, ◌^◌, Bool, true, false, ◌&&◌, not, Option, none, some, [], ◌∷◌, ltb, min,
  length, if◌then◌else◌,
}
use agcp.Prelude.Text.{Bytes}
use agcp.Prelude.Map
use agcp.Prelude.Map.{Map}
use agcp.Accounts.Floats.{Floats}

pub record ModelRateLimit : Type 0 where
  pub until : ℕ

-- What the HTTP call of `refresh_access_token` yields: a token and its life in seconds.
pub data Refreshed (E : Type 0) : Type 0 where
  ok : Bytes → ℕ → Refreshed E
  err : E → Refreshed E

pub data Result (E A : Type 0) : Type 0 where
  ok : A → Result E A
  err : E → Result E A

module _ (fl : Floats) where
  open fl use {F64, lit, of_nat, add, sub, div, min as fmin, max as fmax, lt}

  pub record ModelQuota : Type 0 where
    pub remaining_fraction : F64
    pub reset_time : ℕ

  pub record Account : Type 0 where
    pub id : Bytes
    pub email : Bytes
    pub refresh_token : Bytes
    pub project_id : Option Bytes
    pub enabled : Bool
    pub subscription_tier : Option Bytes
    pub quota : Map ModelQuota
    pub rate_limits : Map ModelRateLimit
    pub health_score : F64
    pub last_used : ℕ
    pub tokens_available : ℕ
    pub is_invalid : Bool
    pub invalid_reason : Option Bytes
    pub quota_threshold : Option F64
    pub model_quota_thresholds : Map F64
    pub access_token : Option Bytes
    pub access_token_expires : Option ℕ

  -- `uuid` is what `Uuid::new_v4` yields.
  unfoldable pub new : Bytes → Bytes → Bytes → Account
  new uuid email refresh_token = record {
    id = uuid;
    email = email;
    refresh_token = refresh_token;
    project_id = none;
    enabled = true;
    subscription_tier = none;
    quota = [];
    rate_limits = [];
    health_score = lit 1 1;
    last_used = 0;
    tokens_available = 50;
    is_invalid = false;
    invalid_reason = none;
    quota_threshold = none;
    model_quota_thresholds = [];
    access_token = none;
    access_token_expires = none;
  }

  valid_token : ℕ → Option Bytes → Option ℕ → Bool
  valid_token now (some token) (some expires) = ltb ((now + 60) % 2 ^ 64) expires
  valid_token now _ _ = false

  unfoldable pub is_access_token_valid : ℕ → Account → Bool
  unfolding valid_token
  is_access_token_valid now a = valid_token now a.access_token a.access_token_expires

  unfoldable pub limited : ℕ → Option ModelRateLimit → Bool
  limited now none = false
  limited now (some limit) = ltb now limit.until

  unfoldable pub is_rate_limited : ℕ → Bytes → Account → Bool
  unfolding limited
  is_rate_limited now model a = limited now (Map.get model a.rate_limits)

  remaining : ℕ → Option ModelRateLimit → ℕ
  remaining now none = 0
  remaining now (some limit) = if ltb now limit.until then limit.until - now else 0

  unfoldable pub rate_limit_remaining : ℕ → Bytes → Account → ℕ
  unfolding remaining
  rate_limit_remaining now model a = remaining now (Map.get model a.rate_limits)

  unfoldable pub set_rate_limit : Bytes → ℕ → Account → Account
  set_rate_limit model until a = record a {
    rate_limits = Map.insert model (record { until = until }) a.rate_limits;
  }

  unfoldable pub clear_rate_limit : Bytes → Account → Account
  clear_rate_limit model a = record a { rate_limits = Map.remove model a.rate_limits }

  fraction_or_full : Option ModelQuota → F64
  fraction_or_full none = lit 1 1
  fraction_or_full (some q) = q.remaining_fraction

  unfoldable pub get_quota_fraction : Bytes → Account → F64
  unfolding fraction_or_full
  get_quota_fraction model a = fraction_or_full (Map.get model a.quota)

  total_fraction : F64 → Map ModelQuota → F64
  total_fraction total [] = total
  total_fraction total ((_, q) ∷ m) = total_fraction (add total q.remaining_fraction) m

  average : Map ModelQuota → F64
  unfolding total_fraction
  average [] = lit 1 1
  average m = div (total_fraction (lit 0 1) m) (of_nat (length m))

  -- The sum runs over the map in its order, which a `HashMap` leaves open.
  unfoldable pub get_average_quota_fraction : Account → F64
  unfolding average
  get_average_quota_fraction a = average a.quota

  first_threshold : Option F64 → Option F64 → F64 → F64
  first_threshold (some threshold) account global = threshold
  first_threshold none (some threshold) global = threshold
  first_threshold none none global = global

  unfoldable pub get_effective_quota_threshold : Bytes → F64 → Account → F64
  unfolding first_threshold
  get_effective_quota_threshold model global_threshold a =
      first_threshold (Map.get model a.model_quota_thresholds) a.quota_threshold global_threshold

  unfoldable pub is_quota_below_threshold : Bytes → F64 → Account → Bool
  unfolding get_quota_fraction get_effective_quota_threshold
  is_quota_below_threshold model global_threshold a =
      lt (get_quota_fraction model a) (get_effective_quota_threshold model global_threshold a)

  unfoldable pub is_usable : ℕ → Bytes → Account → Bool
  unfolding is_rate_limited
  is_usable now model a = a.enabled && not a.is_invalid && not (is_rate_limited now model a)

  unfoldable pub record_success : ℕ → Account → Account
  record_success now a = record a {
    health_score = fmin (add a.health_score (lit 1 10)) (lit 1 1);
    last_used = now;
    is_invalid = false;
    invalid_reason = none;
  }

  unfoldable pub record_failure : ℕ → Account → Account
  record_failure now a = record a {
    health_score = fmax (sub a.health_score (lit 2 10)) (lit 0 1);
    last_used = now;
  }

  unfoldable pub consume_token : Account → Account × Bool
  consume_token a =
      if ltb 0 a.tokens_available
      then (record a { tokens_available = a.tokens_available - 1 }, true)
      else (a, false)

  unfoldable pub refill_tokens : ℕ → Account → Account
  refill_tokens amount a = record a {
    tokens_available = min ((a.tokens_available + amount) % 2 ^ 32) 50;
  }

  -- `self.access_token.clone().unwrap()`, after the check that it is there
  token_or_empty : Option Bytes → Bytes
  token_or_empty none = []
  token_or_empty (some token) = token

  store_token : {E : Type 0} → ℕ → Refreshed E → Account → Account × Result E Bytes
  store_token now (Refreshed.err e) a = (a, Result.err e)
  store_token now (Refreshed.ok access_token expires_in) a = (
    record a {
      access_token = some access_token;
      access_token_expires = some ((now + expires_in) % 2 ^ 64);
    },
    Result.ok access_token,
  )

  -- `refresh` is the HTTP call, made only if it is needed; `then_now` is the time after it.
  unfoldable pub get_access_token :
      {E : Type 0} → ℕ → ℕ → (Bytes → Refreshed E) → Account → Account × Result E Bytes
  unfolding is_access_token_valid token_or_empty store_token
  get_access_token now then_now refresh a =
      if is_access_token_valid now a
      then (a, Result.ok (token_or_empty a.access_token))
      else store_token then_now (refresh a.refresh_token) a
