-- ===== src/Simulated/Update/Sorted.antt =====
-- The order in which queued orders are executed: sales before purchases, otherwise as submitted.
use vm_quant_trader.Prelude.{◌≡◌, Bool, List, [], ◌∷◌, if◌then◌else◌}
use vm_quant_trader.Prelude.Int.{pos, ltb_ℤ}
use vm_quant_trader.Transaction.{sign}
use vm_quant_trader.Floats.{Floats}
use vm_quant_trader.Simulated.Market.{Market}
use vm_quant_trader.Simulated.Broker.{Broker}
use vm_quant_trader.Simulated.Update.{Ticket}

module _ {F : Floats} where
  -- The direction of an order is the sign of its quantity, as `Order` makes it.
  abbrev pub IsSigned : Ticket F → Type 0
  IsSigned t = (t.1).direction ≡ sign (t.1).quantity

  abbrev pub is_sale : Ticket F → Bool
  is_sale t = ltb_ℤ (t.1).quantity (pos 0)

  -- The orders that sell, and those that do not, in their order.
  abbrev pub sales : List (Ticket F) → List (Ticket F)
  sales [] = []
  sales (t ∷ ts) = let rest = sales ts in if is_sale t then t ∷ rest else rest

  abbrev pub purchases : List (Ticket F) → List (Ticket F)
  purchases [] = []
  purchases (t ∷ ts) = let rest = purchases ts in if is_sale t then rest else t ∷ rest
