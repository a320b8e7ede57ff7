-- ===== src/Floats/Fixed.antt =====
-- Numbers with four decimals, as floats: a concrete instance in which a rate such as 0.15% is a
-- number. A number is kept as how many ten-thousandths it has.
use native.Mathlib.Nat.{mul-le-mul_right, div-le_of_le-mul}
use vm_quant_trader.Prelude.{ℕ, suc, ◌*◌, ◌/◌, ◌≤◌, some, false}
use vm_quant_trader.Prelude.Int.{ℤ, pos, negsuc, neg, abs, ◌+ℤ◌, ◌-ℤ◌, ◌*ℤ◌, ltb_ℤ, leb_ℤ, eqb_ℤ}
use vm_quant_trader.Floats.{Floats}

abbrev pub scale : ℕ
scale = 10000

-- What is beyond the fourth decimal is cut off.
unfoldable pub cut : ℤ → ℤ
cut (pos n) = pos (n / scale)
cut (negsuc n) = neg (pos (suc n / scale))

unfoldable pub quotient : ℤ → ℤ → ℤ
quotient (pos a) (pos b) = pos (a / b)
quotient (pos a) (negsuc b) = neg (pos (a / suc b))
quotient (negsuc a) (pos b) = neg (pos (suc a / b))
quotient (negsuc a) (negsuc b) = pos (suc a / suc b)

unfoldable pub round_down : ℤ → ℤ
round_down (pos n) = pos (n / scale)
round_down (negsuc n) = negsuc (n / scale)

abbrev pub fixed : Floats
fixed = record {
  Num = ℤ;
  of_int = λ n. n *ℤ pos scale;
  add = ◌+ℤ◌;
  sub = ◌-ℤ◌;
  mul = λ x y. cut (x *ℤ y);
  div = λ x y. quotient (x *ℤ pos scale) y;
  lt = ltb_ℤ;
  le = leb_ℤ;
  eq = eqb_ℤ;
  floor = λ x. some (round_down x);
  ceil = λ x. some (neg (round_down (neg x)));
  round_cents = λ x. quotient (x +ℤ pos 50) (pos 100) *ℤ pos 100;
  abs_num = λ x. pos (abs x);
  round = λ x. some (round_down (x +ℤ pos 5000));
  truncate = λ x. some (cut x);
  is_nan = λ x. false;
  is_close_to_zero = λ x. eqb_ℤ x (pos 0);
}

-- A part of an amount, at a rate of at most one, is no more than the amount.
pub part-le : (rate n : ℕ) → rate ≤ scale → rate * n / scale ≤ n
part-le rate n h = div-le_of_le-mul scale (mul-le-mul_right n h)
