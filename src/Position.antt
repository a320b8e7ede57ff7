-- ===== src/Position.antt =====
-- The accounting of one asset (vmtrader/broker/portfolio/position.py). The quantities bought and
-- sold are never negative, so they are natural numbers; `-1.0 * q` is exact on them.
pub mod Quantity
use vm_quant_trader.Prelude.{
  ℕ, ◌+◌, String, Bool, true, false, Option, none, some, ltb, ◌==◌, ◌=ₛ◌, not, if◌then◌else◌,
}
use vm_quant_trader.Prelude.Int.{ℤ, pos, negsuc, sub_ℕ, abs, ltb_ℤ, eqb_ℤ}
use vm_quant_trader.Errors.{
  Method, Result, ok, err, bad, earlier_timestamp, price_not_positive, wrong_asset, pure, raise_if,
  modify, ◌>>=◌, ◌>>◌,
}
use vm_quant_trader.Floats.{Floats, zero_num, amount}
use vm_quant_trader.Transaction.{Transaction, sign}

pub record Position (F : Floats) : Type 0 where
  pub asset : String
  pub current_price : F.Num
  pub current_dt : ℕ
  pub buy_quantity : ℕ
  pub sell_quantity : ℕ
  pub avg_bought : F.Num
  pub avg_sold : F.Num
  pub buy_commission : F.Num
  pub sell_commission : F.Num

-- `(avg * held + quantity * price) / (held + quantity)`
abbrev average : (F : Floats) → F.Num → ℕ → ℕ → F.Num → F.Num
average F avg held quantity price =
    F.div (F.add (F.mul avg (amount F held)) (F.mul (amount F quantity) price))
      (amount F (held + quantity))

module _ {F : Floats} where
  open F use {Num, of_int, add, sub, mul, div, le}

  -- `Position.open_from_transaction(transaction)`
  unfoldable pub open_from_transaction : Transaction F → Position F
  open_from_transaction t =
      if ltb_ℤ (pos 0) t.quantity
      then record {
        asset = t.asset;
        current_price = t.price;
        current_dt = t.dt;
        buy_quantity = abs t.quantity;
        sell_quantity = 0;
        avg_bought = t.price;
        avg_sold = zero_num F;
        buy_commission = t.commission;
        sell_commission = zero_num F;
      }
      else record {
        asset = t.asset;
        current_price = t.price;
        current_dt = t.dt;
        buy_quantity = 0;
        sell_quantity = abs t.quantity;
        avg_bought = zero_num F;
        avg_sold = t.price;
        buy_commission = zero_num F;
        sell_commission = t.commission;
      }

  -- `_check_set_dt(dt)`
  unfoldable pub check_set_dt : Option ℕ → Method (Position F) (Unit {0})
  check_set_dt none p = (ok tt, p)
  check_set_dt (some dt) p =
      if ltb dt p.current_dt
      then (err (bad earlier_timestamp), p)
      else (ok tt, record p { current_dt = dt })

  unfoldable pub net_quantity : Position F → ℤ
  net_quantity p = sub_ℕ p.buy_quantity p.sell_quantity

  unfoldable pub direction : Position F → ℤ
  unfolding net_quantity sign
  direction p = if eqb_ℤ (net_quantity p) (pos 0) then pos 0 else sign (net_quantity p)

  unfoldable pub market_value : Position F → Num
  unfolding net_quantity
  market_value p = mul p.current_price (of_int (net_quantity p))

  unfoldable pub avg_price : Position F → Num
  unfolding net_quantity
  avg_price p =
      if eqb_ℤ (net_quantity p) (pos 0)
      then zero_num F
      else if ltb_ℤ (pos 0) (net_quantity p)
      then div (add (mul p.avg_bought (amount F p.buy_quantity)) p.buy_commission)
          (amount F p.buy_quantity)
      else div (sub (mul p.avg_sold (amount F p.sell_quantity)) p.sell_commission)
          (amount F p.sell_quantity)

  unfoldable pub total_bought : Position F → Num
  total_bought p = mul p.avg_bought (amount F p.buy_quantity)

  unfoldable pub total_sold : Position F → Num
  total_sold p = mul p.avg_sold (amount F p.sell_quantity)

  unfoldable pub net_total : Position F → Num
  unfolding total_bought total_sold
  net_total p = sub (total_sold p) (total_bought p)

  unfoldable pub commission : Position F → Num
  commission p = add p.buy_commission p.sell_commission

  unfoldable pub net_incl_commission : Position F → Num
  unfolding net_total commission
  net_incl_commission p = sub (net_total p) (commission p)

  unfoldable pub realised_pnl : Position F → Num
  unfolding direction net_incl_commission
  realised_pnl p =
      if eqb_ℤ (direction p) (pos 1)
      then if p.sell_quantity == 0
        then zero_num F
        else sub
            (sub (mul (sub p.avg_sold p.avg_bought) (amount F p.sell_quantity))
              (mul (div (amount F p.sell_quantity) (amount F p.buy_quantity)) p.buy_commission))
            p.sell_commission
      else if eqb_ℤ (direction p) (negsuc 0)
      then if p.buy_quantity == 0
        then zero_num F
        else sub
            (sub (mul (sub p.avg_sold p.avg_bought) (amount F p.buy_quantity))
              (mul (div (amount F p.buy_quantity) (amount F p.sell_quantity)) p.sell_commission))
            p.buy_commission
      else net_incl_commission p

  unfoldable pub unrealised_pnl : Position F → Num
  unfolding avg_price net_quantity
  unrealised_pnl p = mul (sub p.current_price (avg_price p)) (of_int (net_quantity p))

  unfoldable pub total_pnl : Position F → Num
  unfolding realised_pnl unrealised_pnl
  total_pnl p = add (realised_pnl p) (unrealised_pnl p)

  -- `update_current_price(market_price, dt)`
  unfoldable pub update_current_price : Num → Option ℕ → Method (Position F) (Unit {0})
  unfolding check_set_dt
  update_current_price price dt = do
    check_set_dt dt
    raise_if (le price (zero_num F)) (bad price_not_positive)
    modify (λ p. record p { current_price = price })

  -- `_transact_buy(quantity, price, commission)`
  unfoldable pub transact_buy : ℕ → Num → Num → Position F → Position F
  transact_buy quantity price fee p = record p {
    avg_bought = average F p.avg_bought p.buy_quantity quantity price;
    buy_quantity = p.buy_quantity + quantity;
    buy_commission = add p.buy_commission fee;
  }

  -- `_transact_sell(quantity, price, commission)`
  unfoldable pub transact_sell : ℕ → Num → Num → Position F → Position F
  transact_sell quantity price fee p = record p {
    avg_sold = average F p.avg_sold p.sell_quantity quantity price;
    sell_quantity = p.sell_quantity + quantity;
    sell_commission = add p.sell_commission fee;
  }

  -- The leg that a transaction is booked on.
  abbrev book : Transaction F → Position F → Position F
  book t p =
      if ltb_ℤ (pos 0) t.quantity
      then transact_buy (abs t.quantity) t.price t.commission p
      else transact_sell (abs t.quantity) t.price t.commission p

  -- `transact(transaction)`
  unfoldable pub transact : Transaction F → Method (Position F) (Unit {0})
  unfolding transact_buy transact_sell update_current_price
  transact t p =
      if not (p.asset =ₛ t.asset)
      then (err (bad wrong_asset), p)
      else if eqb_ℤ t.quantity (pos 0)
      then (ok tt, p)
      else (do
        modify (book t)
        update_current_price t.price (some t.dt)
        modify (λ q. record q { current_dt = t.dt }))
          p
