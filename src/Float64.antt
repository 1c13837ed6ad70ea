-- ===== src/Float64.antt =====
-- What the Go code does with a `float64`. The type and its operations are a parameter of the model:
-- no property depends on how IEEE 754 rounds, unless a law below is named as its hypothesis.
use statgate.Prelude.{ℕ, ℤ, Bool}

pub record Float64 (F : Type 0) : Type 0 where
  -- the literal m * 10^(-k), rounded
  pub literal : ℕ → ℕ → F
  pub of_int : ℤ → F
  -- the conversions `int64(x)` and `int(x)`
  pub to_int : F → ℤ
  pub add : F → F → F
  pub sub : F → F → F
  pub mul : F → F → F
  pub div : F → F → F
  pub log : F → F
  -- the operators `<`, `<=` and `==`, all false on NaN
  pub lt : F → F → Bool
  pub le : F → F → Bool
  pub eq : F → F → Bool
