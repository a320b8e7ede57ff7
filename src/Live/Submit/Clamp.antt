-- ===== src/Live/Submit/Clamp.antt =====
-- What clamping does to an order: it only makes it smaller, and never turns it around.
use vm_quant_trader.Prelude.{
  ◌≤◌, ◌≡◌, refl, String, true, false, none, some, arith, if◌then◌else◌, ◌&&◌, ◌||◌, is_some,
  Bool-cases, inl, inr, not,
}
use vm_quant_trader.Prelude.Int.{ℤ, pos, abs, pos_part, neg_part, ltb_ℤ, eqb_ℤ, leb_ℤ}
use vm_quant_trader.Errors.{ok, is_ok}
use vm_quant_trader.Floats.{Floats, zero_num}
use vm_quant_trader.Dict.{get}
use vm_quant_trader.Order.{Order}
use vm_quant_trader.PositionHandler.Holdings.{held}
use vm_quant_trader.Portfolio.{Portfolio, row_of}
use vm_quant_trader.Portfolio.Trades.{get-portfolio_to_dict}
use vm_quant_trader.Live.Broker.{Broker, the_portfolio}
use vm_quant_trader.Live.Submit.{held_quantity, cap_sale, cap_purchase, cap, clamp_quantity}

-- What an order asked for, beside what is sent of it.
pub record Clamped (F : Floats) (asked : ℤ) (price : F.Num) (stock : ℤ) (cash : F.Num) (sent : ℤ)
    : Type 0 where
  pub no_more : abs sent ≤ abs asked
  pub no_sale_of_a_purchase : neg_part sent ≤ neg_part asked
  pub no_purchase_of_a_sale : pos_part sent ≤ pos_part asked
  pub no_short : neg_part sent ≤ pos_part stock
  pub paid :
      (if ltb_ℤ (pos 0) sent
        then elim (F.floor (F.div cash price)) [
          | none ↦ false
          | some affordable ↦ leb_ℤ sent affordable
        ]
        else true)
      ≡ true

module _ {F : Floats} where
  held_quantity-held : (j : String) (p : Portfolio F) → held_quantity j p ≡ held p.positions j
  unfolding held_quantity held row_of
  held_quantity-held j p = ground (arith, get-portfolio_to_dict p j)

  cap_sale-Clamped :
      (asked : ℤ) (price : F.Num) (stock : ℤ) (cash : F.Num)
      → ltb_ℤ asked (pos 0) ≡ true
      → Clamped F asked price stock cash (cap_sale asked stock)
  unfolding cap_sale
  cap_sale-Clamped asked price stock cash sale = record {
    no_more = ground arith;
    no_sale_of_a_purchase = ground arith;
    no_purchase_of_a_sale = ground arith;
    no_short = ground arith;
    paid = ground arith;
  }

  cap_purchase-Clamped :
      (asked : ℤ) (price : F.Num) (stock : ℤ) (cash : F.Num) (sent : ℤ)
      → ltb_ℤ asked (pos 0) ≡ false
      → cap_purchase F asked cash price ≡ ok sent
      → Clamped F asked price stock cash sent
  unfolding cap_purchase
  cap_purchase-Clamped asked price stock cash sent buy h = record {
    no_more = ground arith;
    no_sale_of_a_purchase = ground arith;
    no_purchase_of_a_sale = ground arith;
    no_short = ground arith;
    paid = ground arith;
  }

  cap-Clamped :
      (p : Portfolio F) (asset : String) (asked : ℤ) (price : F.Num) (sent : ℤ)
      → cap asset asked price p ≡ ok sent
      → Clamped F asked price (held p.positions asset) p.cash sent
  unfolding cap
  cap-Clamped p asset asked price sent h = elim (Bool-cases (ltb_ℤ asked (pos 0))) [
    | inl sale ↦
        rw (the_sale sale, held_quantity-held asset p)
          (cap_sale-Clamped asked price (held p.positions asset) p.cash sale)
    | inr buy ↦
        cap_purchase-Clamped asked price (held p.positions asset) p.cash sent buy
          (ground (arith, h, buy))
  ]
    where
      the_sale : ltb_ℤ asked (pos 0) ≡ true → sent ≡ cap_sale asked (held_quantity asset p)
      the_sale sale = ground (arith, h, sale)

  nothing-Clamped :
      (price : F.Num) (stock : ℤ) (cash : F.Num) (asked : ℤ)
      → Clamped F asked price stock cash (pos 0)
  nothing-Clamped price stock cash asked = record {
    no_more = ground arith;
    no_sale_of_a_purchase = ground arith;
    no_purchase_of_a_sale = ground arith;
    no_short = ground arith;
    paid = refl;
  }

  -- When clamping returns a quantity, at a portfolio the broker has, it is no larger than what was
  -- asked for and on the same side; a sale is of no more than is held, and a purchase of no more
  -- than the whole number of shares that the cash pays for at the price.
  pub clamp_quantity-Clamped :
      {W : Type 0} (b : Broker F W) (id : String) (p : Portfolio F) (o : Order F) (price : F.Num)
      (sent : ℤ)
      → get b.portfolios id ≡ some p
      → (clamp_quantity id o price b).0 ≡ ok sent
      → Clamped F o.quantity price (held p.positions o.asset) p.cash sent
  unfolding clamp_quantity the_portfolio
  clamp_quantity-Clamped b id p o price sent e h = elim (Bool-cases (eqb_ℤ o.quantity (pos 0))) [
    | inl nothing ↦
        rw (the_zero nothing) (nothing-Clamped price (held p.positions o.asset) p.cash o.quantity)
    | inr some_asked ↦ cap-Clamped p o.asset o.quantity price sent (the_cap some_asked)
  ]
    where
      the_zero : eqb_ℤ o.quantity (pos 0) ≡ true → sent ≡ pos 0
      the_zero nothing = ground (arith, h, nothing)

      the_cap : eqb_ℤ o.quantity (pos 0) ≡ false → cap o.asset o.quantity price p ≡ ok sent
      the_cap some_asked = ground (arith, h, some_asked, e)

  -- Clamping of an order in a portfolio the broker has raises exactly at a purchase whose price is
  -- zero or whose cash, divided by the price, is not finite.
  pub clamp_quantity_total :
      {W : Type 0} (b : Broker F W) (id : String) (p : Portfolio F) (o : Order F) (price : F.Num)
      → get b.portfolios id ≡ some p
      → is_ok (clamp_quantity id o price b).0
        ≡ not (
            ltb_ℤ (pos 0) o.quantity
            && (F.eq price (zero_num F) || not (is_some (F.floor (F.div p.cash price)))))
  unfolding clamp_quantity the_portfolio cap cap_purchase
  clamp_quantity_total b id p o price e = ground (arith, e)
