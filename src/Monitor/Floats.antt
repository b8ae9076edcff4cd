-- ===== src/Monitor/Floats.antt =====
-- The operations of float64 that the engine uses. Nothing is assumed of them.
use better_nm.Prelude.{ℕ, Bool}

pub record Floats (F : Type 0) : Type 0 where
  pub lt : F → F → Bool
  pub le : F → F → Bool
  pub plus : F → F → F
  pub times : F → F → F
  pub divided : F → F → F
  pub of_ℕ : ℕ → F
  pub literal : ℕ → ℕ → F  -- `literal n m` is the constant n / m
  pub minus_one : F
