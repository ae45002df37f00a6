-- ===== src/Double.antt =====
-- The type double and the operations that the code applies to it. Nothing is assumed of them here:
-- a theorem that needs a law of rounding takes it as a hypothesis at the values that it is about.
pub mod Integers
use cryptobot.Common.{ℕ, Bool}
use cryptobot.Common.Int.{ℤ}

pub record Double : Type 1 where
  pub D : Type 0
  pub of_ℕ : ℕ → D
  pub of_ℤ : ℤ → D
  pub half : D
  pub add : D → D → D
  pub sub : D → D → D
  pub mul : D → D → D
  pub div : D → D → D
  -- `a >= b`
  pub geb : D → D → Bool
