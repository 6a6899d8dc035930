-- ===== src/Stats/Events.antt =====
-- The queue of token events holds the latest ones.
use agcp.Prelude.{
  ℕ, zero, suc, ◌+◌, ◌-◌, ◌≤◌, ◌≡◌, refl, List, [], ◌∷◌, ◌++◌, arith, length, drop, length-drop,
  if_rule, leb, sym, ap, ◌∙◌, length-append,
}
use mathlib.Core.List.{append_assoc, append-nil}
use agcp.Stats.{Stats, TokenEvent, push_event, record_token_usage}

unfoldable pub run_usage : List TokenEvent → Stats → Stats
run_usage [] s = s
run_usage (e ∷ events) s = run_usage events (record_token_usage e s)

abbrev pub latest : List TokenEvent → List TokenEvent
latest events = drop (length events - 1000) events

module _ {ℓ} {A : Type ℓ} where
  drop_front : (n : ℕ) (xs ys : List A) → n ≤ length xs → drop n xs ++ ys ≡ drop n (xs ++ ys)
  drop_front zero xs ys h = refl
  drop_front (suc n) [] ys h = absurd (omega arith)
  drop_front (suc n) (x ∷ xs) ys h = drop_front n xs ys (omega arith)

  drop-nil : (n : ℕ) → drop {A = A} n [] ≡ []
  drop-nil zero = refl
  drop-nil (suc n) = refl

  drop-drop : (m n : ℕ) (xs : List A) → drop m (drop n xs) ≡ drop (n + m) xs
  drop-drop m zero xs = ap (λ k. drop k xs) (omega arith)
  drop-drop m (suc n) [] = drop-nil m ∙ sym (drop-nil (suc n + m))
  drop-drop m (suc n) (x ∷ xs) =
      let e : suc n + m ≡ suc (n + m) = omega arith in
      drop-drop m n xs ∙ sym (ap (λ k. drop k (x ∷ xs)) e)

push_event-latest :
    (e : TokenEvent) (events : List TokenEvent)
    → length events ≤ 1000
    → push_event e events ≡ latest (events ++ e ∷ [])
unfolding push_event
push_event-latest e [] h = refl
push_event-latest e (first ∷ events) h =
    let all = first ∷ (events ++ e ∷ []) in
    let l = length-append events (e ∷ []) in
    if_rule (λ q. q ≡ latest all) (leb 1000 (length (first ∷ events))) (events ++ e ∷ []) all
      (λ full. let n : 1 ≡ length all - 1000 = ground (arith, l) in ap (λ k. drop k all) n)
      (λ room. let n : 0 ≡ length all - 1000 = ground (arith, l) in ap (λ k. drop k all) n)

latest-append :
    (all : List TokenEvent) (e : TokenEvent)
    → latest (latest all ++ e ∷ []) ≡ latest (all ++ e ∷ [])
latest-append all e =
    let n = length all - 1000 in
    let front = drop_front n all (e ∷ []) (omega arith) in
    let a = length-append all (e ∷ []) in
    let b = length-append (drop n all) (e ∷ []) in
    let c = length-drop n all in
    ap (λ q. drop (length (drop n all ++ e ∷ []) - 1000) q) front
    ∙ drop-drop (length (drop n all ++ e ∷ []) - 1000) n (all ++ e ∷ [])
    ∙ ap (λ k. drop k (all ++ e ∷ [])) (omega (arith, a, b, c))

run_usage_from :
    (events all : List TokenEvent) (s : Stats)
    → s.token_events ≡ latest all
    → (run_usage events s).token_events ≡ latest (all ++ events)
unfolding run_usage record_token_usage
run_usage_from [] all s h = h ∙ ap latest (sym (append-nil all))
run_usage_from (e ∷ events) all s h =
    let short : length s.token_events ≤ 1000 =
      rw h (omega (arith, length-drop (length all - 1000) all)) in
    let one =
      push_event-latest e s.token_events short
      ∙ ap (λ q. latest (q ++ e ∷ [])) h
      ∙ latest-append all e in
    run_usage_from events (all ++ e ∷ []) (record_token_usage e s) one
    ∙ ap latest (append_assoc all (e ∷ []) events)

-- After any calls the queue holds the latest thousand of the events that it held and of those that
-- came, in their order.
pub run_usage-latest :
    (events : List TokenEvent) (s : Stats)
    → length s.token_events ≤ 1000
    → (run_usage events s).token_events ≡ latest (s.token_events ++ events)
run_usage-latest events s h =
    let n : 0 ≡ length s.token_events - 1000 = omega arith in
    run_usage_from events s.token_events s (ap (λ k. drop k s.token_events) n)
