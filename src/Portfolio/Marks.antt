-- ===== src/Portfolio/Marks.antt =====
-- A new price for a position: no quantity and no cash moves.
use vm_quant_trader.Prelude.{ℕ, ◌≡◌, String, Option, some, arith, =ₛ_iff, Option-cases, inl, inr}
use vm_quant_trader.Floats.{Floats}
use vm_quant_trader.Dict.{get}
use vm_quant_trader.Dict.Laws.{get-put}
use vm_quant_trader.Position.{Position, net_quantity, update_current_price}
use vm_quant_trader.PositionHandler.Holdings.{held}
use vm_quant_trader.Portfolio.{Portfolio, update_market_value_of_asset}

module _ {F : Floats} where
  net_quantity-update_current_price :
      (price : F.Num) (dt : Option ℕ) (q : Position F)
      → net_quantity (update_current_price price dt q).1 ≡ net_quantity q
  unfolding net_quantity update_current_price
  net_quantity-update_current_price price dt q = ground arith

  pub held-update_market_value :
      (asset : String) (price : F.Num) (dt : ℕ) (p : Portfolio F) (j : String)
      → held (update_market_value_of_asset asset price dt p).1.positions j ≡ held p.positions j
  unfolding held update_market_value_of_asset
  held-update_market_value asset price dt p j = elim (Option-cases (get p.positions asset)) [
    | inl e ↦ ground (arith, e)
    | inr (q, e) ↦
        let (r, q') = update_current_price price (some dt) q in
        ground (
          arith,
          e,
          get-put p.positions asset j q',
          =ₛ_iff asset j,
          net_quantity-update_current_price price (some dt) q,
        )
  ]

  pub cash-update_market_value :
      (asset : String) (price : F.Num) (dt : ℕ) (p : Portfolio F)
      → (update_market_value_of_asset asset price dt p).1.cash ≡ p.cash
  unfolding update_market_value_of_asset
  cash-update_market_value asset price dt p = ground arith
