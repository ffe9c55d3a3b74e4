-- ===== src/Float.antt =====
-- `f32` as the program uses it: a type with the operations that the code calls. Their rounding is not
-- described.
use ashfall.Prelude.{ℕ, Bool}

pub record Float (F : Type 0) : Type 0 where
  pub zero : F
  pub one : F
  pub add : F → F → F
  pub sub : F → F → F
  pub mul : F → F → F
  pub sqrt : F → F
  pub lt : F → F → Bool
  pub le : F → F → Bool
  pub div : F → F → F
  pub max : F → F → F
  pub min : F → F → F
  pub neg : F → F
  -- `x.clamp(low, high)`
  pub clamp : F → F → F → F
  -- A decimal literal, as the quotient of two whole numbers.
  pub literal : ℕ → ℕ → F
  -- `n as f32`, of a whole number
  pub of_nat : ℕ → F
  -- `Duration::as_secs_f32`, of nanoseconds
  pub as_secs : ℕ → F
  pub is_finite : F → Bool
