-- ===== src/PositionHandler.antt =====
-- The positions of a portfolio (vmtrader/broker/portfolio/position_handler.py), by asset.
pub mod Holdings
use vm_quant_trader.Prelude.{String, Option, none, some, List, [], ◌∷◌, if◌then◌else◌}
use vm_quant_trader.Prelude.Int.{pos, eqb_ℤ}
use vm_quant_trader.Errors.{Method, Result, ok, err}
use vm_quant_trader.Floats.{Floats}
use vm_quant_trader.Dict.{Dict, get, put, remove, values}
use vm_quant_trader.Transaction.{Transaction}
use vm_quant_trader.Position.{
  Position, open_from_transaction, net_quantity, transact, market_value, unrealised_pnl,
  realised_pnl, total_pnl,
}

abbrev pub Positions : Floats → Type 0
Positions F = Dict (Position F)

module _ {F : Floats} where
  open F use {Num, of_int, add}

  -- Write a position back, or delete it when its net quantity is zero.
  abbrev pub settle : Positions F → String → Position F → Positions F
  settle d asset p =
      if eqb_ℤ (net_quantity p) (pos 0) then remove (put d asset p) asset else put d asset p

  -- What a call of `transact` leaves: after a raise the position keeps what was written to it, and
  -- the test of its quantity is not reached.
  abbrev pub after_transact :
      Positions F → String → Result (Unit {0}) × Position F → Result (Unit {0}) × Positions F
  after_transact d asset (ok _, p) = (ok tt, settle d asset p)
  after_transact d asset (err e, p) = (err e, put d asset p)

  -- `transact_position(transaction)`
  unfoldable pub transact_position : Transaction F → Method (Positions F) (Unit {0})
  unfolding get put remove net_quantity transact open_from_transaction
  transact_position t d = elim (get d t.asset) [
    | none ↦ (ok tt, settle d t.asset (open_from_transaction t))
    | some p ↦ after_transact d t.asset (transact t p)
  ]

  -- `sum(…)`, from the left and from 0
  sum_of : (Position F → Num) → Num → List (Position F) → Num
  sum_of f acc [] = acc
  sum_of f acc (p ∷ ps) = sum_of f (add acc (f p)) ps

  unfoldable pub total_market_value : Positions F → Num
  unfolding sum_of values market_value
  total_market_value d = sum_of market_value (of_int (pos 0)) (values d)

  unfoldable pub total_unrealised_pnl : Positions F → Num
  unfolding sum_of values unrealised_pnl
  total_unrealised_pnl d = sum_of unrealised_pnl (of_int (pos 0)) (values d)

  unfoldable pub total_realised_pnl : Positions F → Num
  unfolding sum_of values realised_pnl
  total_realised_pnl d = sum_of realised_pnl (of_int (pos 0)) (values d)

  unfoldable pub total_pnl_of : Positions F → Num
  unfolding sum_of values total_pnl
  total_pnl_of d = sum_of total_pnl (of_int (pos 0)) (values d)
