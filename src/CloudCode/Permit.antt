-- ===== src/CloudCode/Permit.antt =====
-- `acquire_request_permit`: the requests of one client keep their distance. Instants are numbers
-- on a monotonic clock in milliseconds; the lock on the last instant is held through the sleep.
use agcp.Prelude.{ℕ, ◌+◌, ◌-◌, ◌≤◌, List, [], ◌∷◌, Bool, arith, ltb, if◌then◌else◌}
use agcp.Prelude.Text.{codes}
use agcp.Error.{Error}
use agcp.CloudCode.Send.{Client, Result}

-- One call: the state of the semaphore, the reading of `elapsed`, and how much longer than it was
-- asked for the sleep, or the way without it, took until the next reading.
pub record Arrival : Type 0 where
  pub closed : Bool
  pub reading : ℕ
  pub extra : ℕ

module _ (client : Client) where
  -- The sleep asked for.
  unfoldable pub wait_time : ℕ → ℕ
  wait_time elapsed =
      if ltb elapsed client.min_request_interval then client.min_request_interval - elapsed else 0

  -- The new `last_request_time`, which is also the instant of the permit.
  unfoldable pub acquire_request_permit : Arrival → ℕ → ℕ × Result ℕ
  unfolding wait_time
  acquire_request_permit c last =
      if c.closed
      then (last, Result.bad (Error.http (codes "Request semaphore closed")))
      else let now = c.reading + wait_time (c.reading - last) + c.extra in (now, Result.good now)

  -- The permits of a row of calls.
  unfoldable pub permits : List Arrival → ℕ → List (Result ℕ)
  unfolding acquire_request_permit
  permits [] last = []
  permits (c ∷ calls) last =
      let (next, permit) = acquire_request_permit c last in permit ∷ permits calls next

  -- The permits that are granted stand apart by the interval, beginning with the given instant.
  abbrev pub Apart : ℕ → List (Result ℕ) → Type 0
  Apart last [] = Unit
  Apart last (Result.good now ∷ results) =
      (last + client.min_request_interval ≤ now) × Apart now results
  Apart last (Result.bad e ∷ results) = Apart last results

  -- No clock is read before the instant of the permit before.
  abbrev pub IsMonotonic : List Arrival → ℕ → Type 0
  IsMonotonic [] last = Unit
  IsMonotonic (c ∷ calls) last =
      (last ≤ c.reading) × IsMonotonic calls (acquire_request_permit c last).0

  -- However the calls come, two permits that follow each other are at least the minimum interval
  -- apart, and so is the first from the instant the client was made.
  pub permits-Apart :
      (calls : List Arrival) (last : ℕ) → IsMonotonic calls last → Apart last (permits calls last)
  unfolding permits acquire_request_permit wait_time
  permits-Apart [] last h = tt
  permits-Apart (c ∷ calls) last h =
      ground (arith, permits-Apart calls (acquire_request_permit c last).0 h.1)
