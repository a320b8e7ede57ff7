-- ===== src/Floats/Whole.antt =====
-- Whole numbers in one unit, as floats: a concrete instance, on which the tests run.
use vm_quant_trader.Prelude.{suc, ◌/◌, some, false}
use vm_quant_trader.Prelude.Int.{ℤ, pos, negsuc, neg, abs, ◌+ℤ◌, ◌-ℤ◌, ◌*ℤ◌, ltb_ℤ, leb_ℤ, eqb_ℤ}
use vm_quant_trader.Floats.{Floats}

-- Division rounds towards zero.
abbrev quotient : ℤ → ℤ → ℤ
quotient (pos a) (pos b) = pos (a / b)
quotient (pos a) (negsuc b) = neg (pos (a / suc b))
quotient (negsuc a) (pos b) = neg (pos (suc a / b))
quotient (negsuc a) (negsuc b) = pos (suc a / suc b)

abbrev pub whole : Floats
whole = record {
  Num = ℤ;
  of_int = λ n. n;
  add = ◌+ℤ◌;
  sub = ◌-ℤ◌;
  mul = ◌*ℤ◌;
  div = quotient;
  lt = ltb_ℤ;
  le = leb_ℤ;
  eq = eqb_ℤ;
  floor = λ n. some n;
  ceil = λ n. some n;
  round_cents = λ n. n;
  abs_num = λ n. pos (abs n);
  round = λ n. some n;
  truncate = λ n. some n;
  is_nan = λ n. false;
  is_close_to_zero = λ n. eqb_ℤ n (pos 0);
}
