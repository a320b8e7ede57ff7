-- ===== src/Transaction.antt =====
-- A transaction (vmtrader/broker/transaction/transaction.py). Quantities are whole numbers, and a
-- timestamp is the number of nanoseconds since a fixed start.
use vm_quant_trader.Prelude.{ℕ, String, if◌then◌else◌}
use vm_quant_trader.Prelude.Int.{ℤ, pos, negsuc, ltb_ℤ}
use vm_quant_trader.Floats.{Floats}

pub record Transaction (F : Floats) : Type 0 where
  pub asset : String
  pub quantity : ℤ
  pub dt : ℕ
  pub price : F.Num
  pub order_id : String
  pub commission : F.Num

-- `np.copysign(1, quantity)`; the integer 0 has a positive sign.
unfoldable pub sign : ℤ → ℤ
sign q = if ltb_ℤ q (pos 0) then negsuc 0 else pos 1

module _ {F : Floats} where
  open F use {Num, of_int, add, mul}

  unfoldable pub cost_without_commission : Transaction F → Num
  cost_without_commission t = mul (of_int t.quantity) t.price

  unfoldable pub cost_with_commission : Transaction F → Num
  unfolding cost_without_commission
  cost_with_commission t = add (cost_without_commission t) t.commission
