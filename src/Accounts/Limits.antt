-- ===== src/Accounts/Limits.antt =====
-- Rate limits, tokens and access tokens of one account.
use agcp.Prelude.{
  ℕ, ◌+◌, ◌-◌, ◌^◌, ◌≤◌, ◌<◌, ◌≡◌, ◌≢◌, ◌↔◌, true, false, some, List, [], ◌∷◌, arith, ltb,
  if◌then◌else◌,
}
use agcp.Prelude.Text.{Bytes, text_eq_iff}
use agcp.Prelude.Map
use agcp.Prelude.Map.{Map, get-insert, get-remove}
use agcp.Accounts.Account.{
  Account, Refreshed, Result, is_rate_limited, rate_limit_remaining, set_rate_limit,
  clear_rate_limit, consume_token, refill_tokens, is_access_token_valid, get_access_token,
}
use agcp.Accounts.Floats.{Floats}

pub data TokenCall : Type 0 where
  consume : TokenCall
  refill : ℕ → TokenCall

abbrev pub refilled : List TokenCall → ℕ
refilled [] = 0
refilled (consume ∷ calls) = refilled calls
refilled (refill amount ∷ calls) = amount + refilled calls

module _ (fl : Floats) where
  -- After `set_rate_limit` the model is limited exactly until that time, with the seconds that are
  -- left, and `clear_rate_limit` lifts the limit; other models are not touched by either.
  rate_limit_until :
      (now until : ℕ) (model other : Bytes) (a : Account fl)
      → model ≢ other
      → let b = set_rate_limit fl model until a in
        let c = clear_rate_limit fl model b in
        (is_rate_limited fl now model b ≡ ltb now until)
        × (rate_limit_remaining fl now model b ≡ until - now)
        × (is_rate_limited fl now model c ≡ false)
        × (is_rate_limited fl now other b ≡ is_rate_limited fl now other a)
        × (is_rate_limited fl now other c ≡ is_rate_limited fl now other a)
  unfolding is_rate_limited rate_limit_remaining set_rate_limit clear_rate_limit
  rate_limit_until now until model other a h =
      let limits = Map.insert model (record { until = until }) a.rate_limits in
      ground (
        arith,
        get-insert model model (record { until = until }) a.rate_limits,
        get-insert model other (record { until = until }) a.rate_limits,
        get-remove model model limits,
        get-remove model other limits,
        text_eq_iff model model,
        text_eq_iff model other,
      )

  -- A limit is in force exactly while there are seconds left of it.
  pub is_rate_limited_iff_remaining :
      (now : ℕ) (model : Bytes) (a : Account fl)
      → (is_rate_limited fl now model a ≡ true) ↔ (0 < rate_limit_remaining fl now model a)
  unfolding is_rate_limited rate_limit_remaining
  is_rate_limited_iff_remaining now model a = ground arith

  -- The tokens after calls, and how many were consumed.
  unfoldable pub run_tokens : List TokenCall → Account fl → Account fl × ℕ
  run_tokens [] a = (a, 0)
  run_tokens (consume ∷ calls) a =
      let (b, taken) = consume_token fl a in
      let (c, n) = run_tokens calls b in (c, if taken then n + 1 else n)
  run_tokens (refill amount ∷ calls) a = run_tokens calls (refill_tokens fl amount a)

  -- The bucket never holds more than 50 tokens, and no more are consumed than it held at first
  -- and was refilled with.
  pub tokens_bounded :
      (calls : List TokenCall) (a : Account fl)
      → a.tokens_available ≤ 50
      → ((run_tokens calls a).0.tokens_available ≤ 50)
        × ((run_tokens calls a).1 + (run_tokens calls a).0.tokens_available
            ≤ a.tokens_available + refilled calls)
  unfolding run_tokens consume_token refill_tokens
  tokens_bounded [] a h = ground arith
  tokens_bounded (consume ∷ calls) a h = ground (arith, tokens_bounded calls (consume_token fl a).0)
  tokens_bounded (refill amount ∷ calls) a h =
      ground (arith, tokens_bounded calls (refill_tokens fl amount a))

  -- Without a valid token, a refreshed one is handed out, and is then valid until a minute before
  -- the end of its life, for times that fit in 64 bits.
  get_access_token_refreshed :
      {E : Type 0} (now then_now later life : ℕ) (token : Bytes) (refresh : Bytes → Refreshed E)
      (a : Account fl)
      → is_access_token_valid fl now a ≡ false
      → refresh a.refresh_token ≡ Refreshed.ok token life
      → then_now + life < 2 ^ 64
      → later + 60 < 2 ^ 64
      → let r = get_access_token fl now then_now refresh a in
        (r.1 ≡ Result.ok token)
        × (r.0.access_token ≡ some token)
        × (is_access_token_valid fl later r.0 ≡ ltb (later + 60) (then_now + life))
  unfolding get_access_token
  get_access_token_refreshed now then_now later life token refresh a h k s t = ground arith
