-- ===== src/Double.antt =====
-- The floating-point arithmetic of Soleil.cpp and PwmGpio.cpp. The processor implements it, so it is
-- a parameter of the model: a type of values and the operations that the code uses.
pub mod Exact
use gest_aqua.Prelude.{ℕ, ℤ, Bool}

pub record Double : Type 1 where
  pub Val : Type 0
  pub of_ℤ : ℤ → Val  -- conversion of an integer
  pub tenths : ℤ → Val  -- the literal n / 10
  pub add : Val → Val → Val
  pub mul : Val → Val → Val
  pub div : Val → Val → Val
  pub lt : Val → Val → Bool
  pub to_u64 : Val → ℕ  -- conversion to `uint64_t`, towards zero
