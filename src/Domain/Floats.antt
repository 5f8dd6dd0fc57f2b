-- ===== src/Domain/Floats.antt =====
-- Go's float64. A value is its bit pattern, so `0` is the zero value; the arithmetic is the
-- machine's, and a parameter of every definition that uses it.
use promptmeter.Prelude.{ℕ, Bool}

abbrev pub Float64 : Type 0
Float64 = ℕ

pub record Floats : Type 0 where
  pub add : Float64 → Float64 → Float64
  pub sub : Float64 → Float64 → Float64
  pub mul : Float64 → Float64 → Float64
  pub div : Float64 → Float64 → Float64
  -- float64(n) of an unsigned integer
  pub of_uint : ℕ → Float64
  pub eq : Float64 → Float64 → Bool
  pub lt : Float64 → Float64 → Bool
