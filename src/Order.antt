-- ===== src/Order.antt =====
-- An order for a broker (vmtrader/execution/order.py). The id is always given: without one the
-- source draws a random UUID.
use vm_quant_trader.Prelude.{ℕ, String, Bool, ◌&&◌, ◌==◌, ◌=ₛ◌}
use vm_quant_trader.Prelude.Int.{ℤ, eqb_ℤ}
use vm_quant_trader.Floats.{Floats, zero_num}
use vm_quant_trader.Transaction.{sign}

pub record Order (F : Floats) : Type 0 where
  pub created_dt : ℕ
  pub cur_dt : ℕ
  pub asset : String
  pub quantity : ℤ
  pub commission : F.Num
  pub direction : ℤ
  pub order_id : String

-- `Order(dt, asset, quantity, order_id=order_id)`
unfoldable pub new_order : (F : Floats) → ℕ → String → ℤ → String → Order F
unfolding sign
new_order F dt asset quantity order_id = record {
  created_dt = dt;
  cur_dt = dt;
  asset = asset;
  quantity = quantity;
  commission = zero_num F;
  direction = sign quantity;
  order_id = order_id;
}

-- `_order_attribs_equal(other)`
unfoldable pub order_attribs_equal : {F : Floats} → Order F → Order F → Bool
order_attribs_equal {F} a b =
    a.created_dt == b.created_dt
    && a.cur_dt == b.cur_dt
    && a.asset =ₛ b.asset
    && eqb_ℤ a.quantity b.quantity
    && F.eq a.commission b.commission
    && eqb_ℤ a.direction b.direction
