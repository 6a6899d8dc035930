-- ===== src/CloudCode/Rations.antt =====
-- The number of requests of one call, and its end: each `continue` uses up a retry.
use agcp.Prelude.{
  Bool, leb, ◌&&◌, Bool-cases, inl, inr, ltb, ℕ, zero, suc, ◌+◌, ◌-◌, ◌*◌, ◌≤◌, ◌<◌, ◌≡◌, List, [],
  ◌∷◌, ◌++◌, arith, length, true, false,
}
use agcp.Prelude.Text.{Bytes}
use agcp.CloudCode.Rounds.{
  Env, State, Round, Action, End, max_wait_before_error_ms, loop, over_endpoints, begin_round,
  follow, move_on, after,
}

abbrev pub posts : List Action → ℕ
posts [] = 0
posts (Action.posted _ _ ∷ actions) = 1 + posts actions
posts (Action.slept _ ∷ actions) = posts actions

abbrev pub waits : List Action → ℕ
waits [] = 0
waits (Action.posted _ _ ∷ actions) = waits actions
waits (Action.slept ms ∷ actions) = ms + waits actions

abbrev pub on_time : List Action → Bool
on_time [] = true
on_time (Action.posted _ elapsed_ms ∷ actions) =
    leb elapsed_ms max_wait_before_error_ms && on_time actions
on_time (Action.slept ms ∷ actions) = on_time actions

pub append_lem :
    (a b : List Action)
    → (posts (a ++ b) ≡ posts a + posts b)
      × (waits (a ++ b) ≡ waits a + waits b)
      × (on_time (a ++ b) ≡ (on_time a && on_time b))
append_lem [] b = ground arith
append_lem (Action.posted _ _ ∷ a) b = ground (arith, append_lem a b)
append_lem (Action.slept _ ∷ a) b = ground (arith, append_lem a b)

abbrev pub in_fuel : {A : Type 0} → End A → Bool
in_fuel End.out_of_fuel = false
in_fuel _ = true

-- What is left: of the retries at the endpoint, and of a ration that the endpoints share.
module _ (max_retries : ℕ) (ration : ℕ → ℕ) where
  abbrev pub left : State → ℕ
  left s = (max_retries - s.retry_count) + ration s.capacity_retry_count

  -- A `continue` uses some of it, and its sleep ends in time; a `break` adds nothing.
  abbrev pub Uses : {A : Type 0} → State → Round A → Type 0
  Uses s (Round.again wait s') =
      (left s' < left s) × (s'.elapsed ≡ s.elapsed) × (s.elapsed + wait ≤ 180_000)
  Uses s (Round.next_endpoint s') = (left s' ≤ left s) × (s'.elapsed ≡ s.elapsed)
  Uses s (Round.done _ _) = Unit
  Uses s (Round.fail _ _) = Unit
  Uses s Round.panics = Unit

  abbrev pub room : State → ℕ
  room s = 180_000 - s.elapsed

  -- What is left at a `break`.
  abbrev left_at : {A : Type 0} → End A → ℕ × ℕ
  left_at (End.broke s) = (left s, room s)
  left_at _ = (0, 0)

  abbrev Paid : {A : Type 0} → State → List Action × End A → Type 0
  Paid s (actions, end) =
      (in_fuel end ≡ true)
      × (posts actions + (left_at end).0 ≤ 1 + left s)
      × (waits actions + (left_at end).1 ≤ room s)
      × (on_time actions ≡ true)

  abbrev pub Total : {A : Type 0} → ℕ → ℕ → List Action × End A → Type 0
  Total n ms (actions, end) =
      (in_fuel end ≡ true) × (posts actions ≤ n) × (waits actions ≤ ms) × (on_time actions ≡ true)

  module _ {A : Type 0} (env : Env) (model : Bytes) (attempt : State → Round A) where
    follow-Paid :
        (rest : State → List Action × End A) (endpoint : Bytes) (s : State) (r : Round A)
        → s.elapsed ≤ 120_000
        → Uses s r
        → ((s' : State) → left s' < left s → Paid s' (rest s'))
        → Paid s (follow env model rest endpoint s r)
    unfolding follow
    follow-Paid rest endpoint s (Round.again wait s') d h paid =
        ground (arith, paid (after env model s.sent wait s') h.0)
    follow-Paid rest endpoint s (Round.next_endpoint s') d h paid = ground arith
    follow-Paid rest endpoint s (Round.done s' a) d h paid = ground arith
    follow-Paid rest endpoint s (Round.fail s' e) d h paid = ground arith
    follow-Paid rest endpoint s Round.panics d h paid = ground arith

    module _ (uses : (s : State) → s.elapsed ≤ 120_000 → Uses s (attempt s)) where
      loop-Paid :
          (fuel : ℕ) (endpoint : Bytes) (s : State)
          → left s < fuel
          → Paid s (loop env model attempt fuel endpoint s)
      unfolding loop
      loop-Paid zero endpoint s h = absurd (omega arith)
      loop-Paid (suc fuel) endpoint s h = elim (Bool-cases (ltb 120_000 s.elapsed)) [
        | inl e ↦ ground arith
        | inr e ↦
            let begun = begin_round env model s in
            let p =
              follow-Paid (loop env model attempt fuel endpoint) endpoint s (attempt begun)
                (ground arith) (uses begun (ground arith))
                (λ s' lt. loop-Paid fuel endpoint s' (omega arith)) in
            ground (arith, p)
      ]

      move_on-Total :
          (rest : State → List Action × End A) (s0 : State) (k : ℕ) (r : List Action × End A)
          → Paid s0 r
          → ((s : State) → Total (ration s.capacity_retry_count + k) (room s) (rest s))
          → Total (left s0 + 1 + k) (room s0) (move_on env model rest r)
      unfolding move_on
      move_on-Total rest s0 k (actions, End.broke s) h paid =
          ground (arith, paid s, append_lem actions (rest s).0)
      move_on-Total rest s0 k (actions, End.answer _) h paid = ground arith
      move_on-Total rest s0 k (actions, End.error _) h paid = ground arith
      move_on-Total rest s0 k (actions, End.panicked) h paid = ground arith
      move_on-Total rest s0 k (actions, End.out_of_fuel) h paid = ground arith

      pub over_endpoints-Total :
          (fuel : ℕ) (rest : List Bytes) (s : State)
          → ((s : State) → max_retries + ration s.capacity_retry_count < fuel)
          → Total
              (ration s.capacity_retry_count + length rest * (max_retries + 1))
              (room s)
              (over_endpoints env model attempt fuel rest s)
      unfolding over_endpoints
      over_endpoints-Total fuel [] s h = ground arith
      over_endpoints-Total fuel (endpoint ∷ rest) s h =
          let s0 = record s { retry_count = 0 } in
          let paid = loop-Paid fuel endpoint s0 (omega (arith, h s)) in
          let total =
            move_on-Total (over_endpoints env model attempt fuel rest) s0
              (length rest * (max_retries + 1)) (loop env model attempt fuel endpoint s0) paid
              (λ t. over_endpoints-Total fuel rest t h) in
          ground (arith, total)
