-- ===== src/Floats.antt =====
-- Python's floating-point numbers. The model takes them as a parameter: a type and the operations
-- that the program calls, with no law at all.
pub mod Whole
pub mod Fixed
use vm_quant_trader.Prelude.{ℕ, Bool, Option}
use vm_quant_trader.Prelude.Int.{ℤ, pos}

pub record Floats : Type 1 where
  pub Num : Type 0
  -- `float(n)`, also where Python mixes an int into float arithmetic
  pub of_int : ℤ → Num
  pub add : Num → Num → Num
  pub sub : Num → Num → Num
  pub mul : Num → Num → Num
  -- `x / y` at a `y` other than zero
  pub div : Num → Num → Num
  -- `x < y`, `x <= y` and `x == y`
  pub lt : Num → Num → Bool
  pub le : Num → Num → Bool
  pub eq : Num → Num → Bool
  -- `int(np.floor(x))` and `int(np.ceil(x))`; NaN and infinity have no int, and raise
  pub floor : Num → Option ℤ
  pub ceil : Num → Option ℤ
  -- `round(x, 2)`
  pub round_cents : Num → Num
  -- `abs(x)`
  pub abs_num : Num → Num
  -- `round(x)`; what is no number cannot be rounded to one
  pub round : Num → Option ℤ
  -- `int(x)`, towards zero, where `x` is finite
  pub truncate : Num → Option ℤ
  -- `np.isnan(x)`, `np.isclose(x, 0.0)`
  pub is_nan : Num → Bool
  pub is_close_to_zero : Num → Bool

-- `0.0`
abbrev pub zero_num : (F : Floats) → F.Num
zero_num F = F.of_int (pos 0)

-- A quantity, in float arithmetic.
abbrev pub amount : (F : Floats) → ℕ → F.Num
amount F n = F.of_int (pos n)
