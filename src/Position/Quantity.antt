-- ===== src/Position/Quantity.antt =====
-- What a transaction does to the net quantity of a position, and when it raises.
use vm_quant_trader.Prelude.{◌≡◌, arith, =ₛ_iff, ltb, not, ◌&&◌, ◌||◌}
use vm_quant_trader.Prelude.Int.{pos, ◌+ℤ◌, eqb_ℤ}
use vm_quant_trader.Errors.{is_ok}
use vm_quant_trader.Floats.{Floats, zero_num}
use vm_quant_trader.Transaction.{Transaction}
use vm_quant_trader.Position.{Position, open_from_transaction, net_quantity, transact}

module _ {F : Floats} where
  -- A new position holds the quantity of its transaction.
  pub net_quantity-open : (t : Transaction F) → net_quantity (open_from_transaction t) ≡ t.quantity
  unfolding net_quantity open_from_transaction
  net_quantity-open t = ground arith

  -- A transaction in the position's asset moves the net quantity by its own, also when it raises
  -- afterwards: the leg is booked before the price and the timestamp are checked.
  pub net_quantity-transact :
      (t : Transaction F) (p : Position F)
      → p.asset ≡ t.asset
      → net_quantity (transact t p).1 ≡ net_quantity p +ℤ t.quantity
  unfolding net_quantity transact ◌+ℤ◌
  net_quantity-transact t p e = ground (arith, =ₛ_iff p.asset t.asset)

  -- No transaction moves a position to another asset.
  pub asset-transact : (t : Transaction F) (p : Position F) → (transact t p).1.asset ≡ p.asset
  unfolding transact
  asset-transact t p = ground arith

  -- A transaction in the position's asset returns exactly when it has no quantity, or a price above
  -- zero and a timestamp that is not earlier than the position's.
  pub is_ok-transact :
      (t : Transaction F) (p : Position F)
      → p.asset ≡ t.asset
      → is_ok (transact t p).0 ≡ (
          eqb_ℤ t.quantity (pos 0)
          || not (ltb t.dt p.current_dt) && not (F.le t.price (zero_num F)))
  unfolding transact
  is_ok-transact t p e = ground (arith, =ₛ_iff p.asset t.asset)
