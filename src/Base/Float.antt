-- ===== src/Base/Float.antt =====
-- The operations on float64 that the program uses. There are no floats here: the type is a
-- parameter.
use Prim.Native.Nat.{ℕ}
use mathlib.Core.Bool.{Bool}

pub record Float64 : Type 1 where
  pub F : Type 0
  -- `float64(n)`.
  pub of_int : ℕ → F
  pub plus : F → F → F
  pub times : F → F → F
  pub over : F → F → F
  -- `a > b`.
  pub greater : F → F → Bool
  -- Neither an infinity nor NaN, which encoding/json refuses.
  pub is_finite : F → Bool
