-- ===== src/Tests/AccountStore.antt =====
-- Accounts and their selection on concrete data, with scores in thousandths.
use Prim.Native.Nat.{Ordering}
use agcp.Prelude.{
  ℕ, ◌+◌, ◌-◌, ◌*◌, ◌/◌, ◌≤◌, ◌≡◌, refl, true, false, not, ◌&&◌, Option, some, List, [], ◌∷◌, arith,
  ltb, min, max, if◌then◌else◌, length, ap,
}
use agcp.Prelude.Text.{Bytes, codes}
use agcp.Prelude.Map
use agcp.Accounts.Account.{
  Account, new, is_rate_limited, is_usable, set_rate_limit, is_quota_below_threshold,
  get_quota_fraction, get_effective_quota_threshold,
}
use agcp.Accounts.Best.{beats, eligible, all_eligible, select_hybrid-candidate}
use agcp.Accounts.Choice.{Chooses, select_sticky_disabled}
use agcp.Accounts.Emails.{IsUnique, run-IsUnique}
use agcp.Accounts.Floats.{Floats}
use agcp.Accounts.Integrity.{Call, run, HasActive, run-HasActive}
use agcp.Accounts.Limits.{TokenCall, consume, refill, run_tokens, refilled, tokens_bounded}
use agcp.Accounts.Select.{
  total_score, active_account, candidates, is_candidate, select_hybrid, select_sticky,
}
use agcp.Accounts.Store.{AccountStore, default}

pub compare : ℕ → ℕ → Option Ordering
compare a b =
    if ltb a b then some Ordering.lt else if ltb b a then some Ordering.gt else some Ordering.eq

abbrev pub thousandths : Floats
unfolding compare
thousandths = record {
  F64 = ℕ;
  lit = λ n d. n * 1000 / d;
  of_nat = λ n. n * 1000;
  add = λ a b. a + b;
  sub = λ a b. a - b;
  mul = λ a b. a * b / 1000;
  div = λ a b. a * 1000 / b;
  min = min;
  max = max;
  lt = ltb;
  partial_cmp = compare;
}

abbrev model : Bytes
model = codes "gemini-3-flash"

abbrev pub alice : Account thousandths
alice = new thousandths (codes "id-a") (codes "alice@example.com") (codes "refresh-a")

abbrev pub bob : Account thousandths
bob = new thousandths (codes "id-b") (codes "bob@example.com") (codes "refresh-b")

abbrev pub store : AccountStore thousandths
store = record (default thousandths) {
  accounts = alice ∷ set_rate_limit thousandths model 500 bob ∷ [];
  active_account_id = some (codes "id-a");
}

abbrev token_calls : List TokenCall
token_calls = consume ∷ consume ∷ refill 30 ∷ consume ∷ []

tokens_bounded_example :
    let r = run_tokens thousandths token_calls alice in
    (r.0.tokens_available ≤ 50)
    × (r.1 + r.0.tokens_available ≤ alice.tokens_available + refilled token_calls)
unfolding new
tokens_bounded_example = tokens_bounded thousandths token_calls alice (omega arith)

abbrev with_token : Account thousandths
with_token = record alice { access_token = some (codes "tok"); access_token_expires = some 1000 }

abbrev calls : List (Call thousandths)
calls =
    Call.add alice
    ∷ Call.add bob
    ∷ Call.select 100 model
    ∷ Call.set_active (codes "id-b")
    ∷ Call.remove (codes "id-b")
    ∷ []

run-HasActive_example : HasActive thousandths (run thousandths calls (default thousandths))
unfolding default
run-HasActive_example = run-HasActive thousandths calls (default thousandths) tt

run-IsUnique_example : IsUnique thousandths (run thousandths calls (default thousandths)).accounts
unfolding default
run-IsUnique_example = run-IsUnique thousandths calls (default thousandths) tt

-- Alice alone is a candidate: Bob is limited.
one_candidate : length (candidates thousandths 300 model store) ≡ 1
unfolding candidates is_candidate is_rate_limited is_quota_below_threshold get_quota_fraction
    get_effective_quota_threshold new set_rate_limit default Map.get Map.insert thousandths
one_candidate = refl

compare_asym :
    (a b : thousandths.F64)
    → true ≡ true
    → true ≡ true
    → beats thousandths a b ≡ true
    → beats thousandths b a ≡ false
unfolding thousandths compare
compare_asym a b n m h = ground arith

compare_trans :
    (a b c : thousandths.F64)
    → true ≡ true
    → true ≡ true
    → true ≡ true
    → beats thousandths a b ≡ false
    → beats thousandths b c ≡ false
    → beats thousandths a c ≡ false
unfolding thousandths compare
compare_trans a b c n m k h g = ground arith

select_hybrid-candidate_example :
    let score = total_score thousandths 300 model in
    let p = eligible thousandths 300 model store.quota_threshold in
    Chooses thousandths
      (λ a.
        p a
        && all_eligible thousandths p
            (λ b. not (beats thousandths (score b) (score a)))
            store.accounts)
      store
      (select_hybrid thousandths 300 model store)
unfolding is_rate_limited is_quota_below_threshold get_quota_fraction get_effective_quota_threshold
    new set_rate_limit default Map.get Map.insert thousandths
select_hybrid-candidate_example =
    select_hybrid-candidate thousandths (λ s. true) compare_asym compare_trans 300 model store
      (λ h. absurd (omega (arith, one_candidate, ap length h))) refl

abbrev disabled : AccountStore thousandths
disabled = record store { accounts = record alice { enabled = false } ∷ bob ∷ [] }

select_sticky_disabled_example :
    (is_usable thousandths 300 model (record alice { enabled = false }) ≡ false)
    × (select_sticky thousandths 300 model disabled ≡ (disabled, some (codes "id-a")))
unfolding active_account new default is_rate_limited Map.get
select_sticky_disabled_example =
    select_sticky_disabled thousandths 300 model (record alice { enabled = false }) disabled refl
      refl refl
