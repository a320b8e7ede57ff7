-- ===== src/Live/Submit.antt =====
-- Submitting an order (vmtrader/broker/live_broker.py, `_clamp_quantity` and `submit_order`). An
-- order's quantity is whole, so rounding its magnitude down changes nothing.
pub mod Clamp
pub mod Outcome
pub mod Books
mod Tests
use vm_quant_trader.Prelude.{
  ℕ, String, Bool, true, false, Option, none, some, List, [], ◌∷◌, if◌then◌else◌, not,
}
use vm_quant_trader.Prelude.Int.{ℤ, pos, abs, neg, eqb_ℤ, ltb_ℤ, leb_ℤ}
use vm_quant_trader.Errors.{
  Method, Result, ok, err, Exc, bad, not_a_number, zero_division, is_stop_requested, pure, raise,
  modify, ◌>>=◌, ◌>>◌,
}
use vm_quant_trader.Floats.{Floats, zero_num}
use vm_quant_trader.Dict.{get, put}
use vm_quant_trader.Order.{Order}
use vm_quant_trader.Portfolio.{Portfolio, portfolio_to_dict}
use vm_quant_trader.Live.Guards.{check_order, record_submission}
use vm_quant_trader.Live.Ledger.{
  OrderLedger, record_intent, record_state, record_submitted, rejected, of_error,
}
use vm_quant_trader.Live.Client.{Venue}
use vm_quant_trader.Live.Broker.{Broker, OpenOrder, ask, now, the_portfolio}

abbrev pub smaller : ℤ → ℤ → ℤ
smaller a b = if leb_ℤ b a then b else a

-- A sale is capped at what is held.
unfoldable pub cap_sale : ℤ → ℤ → ℤ
cap_sale quantity held =
    if leb_ℤ held (pos 0) then pos 0 else neg (smaller (pos (abs quantity)) held)

-- A purchase is capped at what the cash pays for.
unfoldable pub cap_purchase : (F : Floats) → ℤ → F.Num → F.Num → Result ℤ
cap_purchase F quantity cash price =
    if F.eq price (zero_num F) then err zero_division else elim (F.floor (F.div cash price)) [
      | none ↦ err (bad not_a_number)
      | some affordable ↦
          if leb_ℤ affordable (pos 0) then ok (pos 0) else ok (smaller quantity affordable)
    ]

module _ {F : Floats} where
  -- `portfolio.portfolio_to_dict().get(asset, {}).get('quantity', 0)`
  unfoldable pub held_quantity : String → Portfolio F → ℤ
  unfolding get portfolio_to_dict
  held_quantity asset p = elim (get (portfolio_to_dict p) asset) [
    | none ↦ pos 0
    | some row ↦ row.quantity
  ]

  -- The caps, of a quantity other than zero.
  unfoldable pub cap : String → ℤ → F.Num → Portfolio F → Result ℤ
  unfolding held_quantity cap_sale cap_purchase
  cap asset quantity price p =
      if ltb_ℤ quantity (pos 0)
      then ok (cap_sale quantity (held_quantity asset p))
      else cap_purchase F quantity p.cash price

module _ {F : Floats} {W : Type 0} where
  -- `_clamp_quantity(portfolio_id, order, price)`
  unfoldable pub clamp_quantity : String → Order F → F.Num → Method (Broker F W) ℤ
  unfolding the_portfolio cap
  clamp_quantity portfolio_id order price =
      if eqb_ℤ order.quantity (pos 0)
      then pure (pos 0)
      else do p ← the_portfolio portfolio_id; (λ b. (cap order.asset order.quantity price p, b))

  abbrev pub on_ledger : (OrderLedger F → OrderLedger F) → Method (Broker F W) (Unit {0})
  on_ledger f = modify λ b. record b { ledger = f b.ledger }

  -- `self.open_orders[order_no] = {…}`
  abbrev pub new_open_order : String → Order F → ℤ → String → Broker F W → Broker F W
  unfolding put
  new_open_order portfolio_id order quantity order_no b = record b {
    open_orders = put b.open_orders order_no (record {
      order_id = order.order_id;
      symbol = order.asset;
      quantity = quantity;
      portfolio_id = portfolio_id;
      booked_quantity = 0;
      booked_fees = zero_num F;
    });
  }

  -- What the guard refuses is in the ledger; a request to stop is raised again.
  abbrev pub refuse : Order F → ℤ → ℕ → Exc → Method (Broker F W) (Unit {0})
  unfolding record_intent record_state
  refuse order quantity dt e = do
    on_ledger (record_intent order.order_id order.asset quantity dt)
    on_ledger (record_state order.order_id rejected dt (some (of_error e)))
    if is_stop_requested e then raise e else pure tt

  -- The venue's answer: an order number, or any exception, which is not raised again.
  abbrev pub answered :
      String → Order F → ℤ → ℕ → Result String × Broker F W → Result (Unit {0}) × Broker F W
  unfolding record_submission record_submitted record_state
  answered portfolio_id order quantity dt (ok order_no, b) =
      (do
        modify (λ b. record b { guard = record_submission b.guard })
        on_ledger (record_submitted order.order_id order_no dt)
        modify (new_open_order portfolio_id order quantity order_no))
        b
  answered portfolio_id order quantity dt (err e, b) =
      on_ledger (record_state order.order_id rejected dt (some (of_error e))) b

module _ {F : Floats} {W : Type 0} (venue : Venue F W) where
  -- From the guard on.
  unfoldable pub send : String → Order F → ℤ → F.Num → ℕ → Method (Broker F W) (Unit {0})
  unfolding check_order record_intent
  send portfolio_id order quantity price dt b =
      elim (check_order (venue.path_exists b.world) quantity price b.guard) [
        | err e ↦ refuse order quantity dt e b
        | ok _ ↦
            (do
              on_ledger (record_intent order.order_id order.asset quantity dt)
              (λ b.
                  answered portfolio_id order quantity dt
                    (ask (venue.place_market_order order.asset quantity) b)))
              b
      ]

  -- From the price on, at an open market.
  unfoldable pub priced : String → Order F → ℕ → Method (Broker F W) (Unit {0})
  unfolding clamp_quantity send
  priced portfolio_id order dt = do
    price ← ask (venue.get_asset_latest_ask_price dt order.asset)
    quantity ← clamp_quantity portfolio_id order price
    if eqb_ℤ quantity (pos 0) then pure tt else send portfolio_id order quantity price dt

  -- `submit_order(portfolio_id, order)`
  unfoldable pub submit_order : String → Order F → Method (Broker F W) (Unit {0})
  unfolding now priced
  submit_order portfolio_id order = do
    dt ← now venue
    (λ b.
        (if venue.is_open_at_datetime dt b.world then priced portfolio_id order dt else pure tt) b)
