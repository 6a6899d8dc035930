-- ===== src/Accounts/Floats.antt =====
-- `f64` and what the program computes with it. Nothing is assumed of the operations.
use agcp.Prelude.{ℕ, Bool, Option}
use Prim.Native.Nat.{Ordering}

pub record Floats : Type 1 where
  pub F64 : Type 0
  -- the literal n / d, as 0.1 is `lit 1 10`
  pub lit : ℕ → ℕ → F64
  pub of_nat : ℕ → F64
  pub add : F64 → F64 → F64
  pub sub : F64 → F64 → F64
  pub mul : F64 → F64 → F64
  pub div : F64 → F64 → F64
  pub min : F64 → F64 → F64
  pub max : F64 → F64 → F64
  pub lt : F64 → F64 → Bool
  pub partial_cmp : F64 → F64 → Option Ordering
