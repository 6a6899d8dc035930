-- ===== src/CloudCode/Answered.antt =====
-- The round in which the loop over the endpoints returns an answer is its last.
use agcp.Prelude.{Bool-cases, ltb, inl, inr, ℕ, zero, suc, ◌+◌, ◌≡◌, List, [], ◌∷◌, ◌++◌, arith}
use agcp.Prelude.Text.{Bytes}
use mathlib.Core.Path.{subst}
use agcp.CloudCode.Rounds.{
  Env, State, Round, Action, End, loop, over_endpoints, begin_round, follow, move_on, after,
}
use agcp.CloudCode.Rations.{posts, append_lem}

module _ {A : Type 0} (P : ℕ → A → Type 0) where
  -- A `return` of an answer in the round `n` gives `P`.
  abbrev pub Sound : ℕ → Round A → Type 0
  Sound n (Round.done s a) = P n a
  Sound n _ = Unit

  abbrev pub Answered : ℕ → List Action × End A → Type 0
  Answered n (actions, End.broke s) = s.sent ≡ n + posts actions
  Answered n (actions, End.answer a) = (k : ℕ) × (n + posts actions ≡ k + 1) × P k a
  Answered n _ = Unit

  Answered-after :
      (n : ℕ) (endpoint : Bytes) (t w : ℕ) (r : List Action × End A)
      → Answered (n + 1) r
      → Answered n (Action.posted endpoint t ∷ Action.slept w ∷ r.0, r.1)
  Answered-after n endpoint t w (actions, End.broke s) h = omega arith
  Answered-after n endpoint t w (actions, End.answer a) (k, e, p) = (k, omega arith, p)
  Answered-after n endpoint t w (actions, End.error _) h = tt
  Answered-after n endpoint t w (actions, End.panicked) h = tt
  Answered-after n endpoint t w (actions, End.out_of_fuel) h = tt

  Answered-append :
      (n : ℕ) (front : List Action) (r : List Action × End A)
      → Answered (n + posts front) r
      → Answered n (front ++ r.0, r.1)
  Answered-append n front (actions, End.broke s) h = omega (arith, append_lem front actions)
  Answered-append n front (actions, End.answer a) (k, e, p) =
      (k, omega (arith, append_lem front actions), p)
  Answered-append n front (actions, End.error _) h = tt
  Answered-append n front (actions, End.panicked) h = tt
  Answered-append n front (actions, End.out_of_fuel) h = tt

  module _ (env : Env) (model : Bytes) (attempt : State → Round A)
      (sound : (s : State) → Sound s.sent (attempt s)) where
    follow-Answered :
        (rest : State → List Action × End A) (endpoint : Bytes) (s : State) (r : Round A)
        → Sound s.sent r
        → ((s' : State) → Answered s'.sent (rest s'))
        → Answered s.sent (follow env model rest endpoint s r)
    unfolding follow
    follow-Answered rest endpoint s (Round.again wait s') h answered =
        let next = after env model s.sent wait s' in
        Answered-after s.sent endpoint s.elapsed wait (rest next) (answered next)
    follow-Answered rest endpoint s (Round.next_endpoint s') h answered = omega arith
    follow-Answered rest endpoint s (Round.done s' a) h answered = (s.sent, omega arith, h)
    follow-Answered rest endpoint s (Round.fail s' e) h answered = tt
    follow-Answered rest endpoint s Round.panics h answered = tt

    loop-Answered :
        (fuel : ℕ) (endpoint : Bytes) (s : State)
        → Answered s.sent (loop env model attempt fuel endpoint s)
    unfolding loop
    loop-Answered zero endpoint s = tt
    loop-Answered (suc fuel) endpoint s = elim (Bool-cases (ltb 120_000 s.elapsed)) [
      | inl e ↦ ground (arith, e)
      | inr e ↦
          let begun = begin_round env model s in
          let p =
            follow-Answered (loop env model attempt fuel endpoint) endpoint s (attempt begun)
              (sound begun) (loop-Answered fuel endpoint) in
          ground (arith, p)
    ]

    move_on-Answered :
        (rest : State → List Action × End A) (n : ℕ) (r : List Action × End A)
        → Answered n r
        → ((s : State) → Answered s.sent (rest s))
        → Answered n (move_on env model rest r)
    unfolding move_on
    move_on-Answered rest n (actions, End.broke s) h answered =
        Answered-append n actions (rest s) (subst (λ k. Answered k (rest s)) h (answered s))
    move_on-Answered rest n (actions, End.answer _) h answered = h
    move_on-Answered rest n (actions, End.error _) h answered = tt
    move_on-Answered rest n (actions, End.panicked) h answered = tt
    move_on-Answered rest n (actions, End.out_of_fuel) h answered = tt

    pub over_endpoints-Answered :
        (fuel : ℕ) (rest : List Bytes) (s : State)
        → Answered s.sent (over_endpoints env model attempt fuel rest s)
    unfolding over_endpoints
    over_endpoints-Answered fuel [] s = omega arith
    over_endpoints-Answered fuel (endpoint ∷ rest) s =
        let s0 = record s { retry_count = 0 } in
        move_on-Answered (over_endpoints env model attempt fuel rest) s.sent
          (loop env model attempt fuel endpoint s0) (loop-Answered fuel endpoint s0)
          (over_endpoints-Answered fuel rest)
