-- ===== src/Live/Session.antt =====
-- Between cycles (vmtrader/broker/live_broker.py): `update`, which collects what arrives late and
-- marks the positions, under a throttle; and `record_equity`. A difference of timestamps below the
-- throttle is written as a sum, since it may be negative.
pub mod Clock
pub mod Marks
mod Tests
use vm_quant_trader.Prelude.{
  ℕ, ◌+◌, String, Bool, true, false, not, ◌&&◌, Option, none, some, List, [], ◌∷◌, ltb,
  if◌then◌else◌,
}
use vm_quant_trader.Errors.{Method, Result, ok, err, pure, modify, ◌>>=◌, ◌>>◌}
use vm_quant_trader.Floats.{Floats}
use vm_quant_trader.Dict.{get, keys}
use vm_quant_trader.Portfolio.{Portfolio, update_market_value_of_asset}
use vm_quant_trader.Live.Ledger.{OrderLedger}
use vm_quant_trader.Live.Ledger.{record_equity as append_equity}
use vm_quant_trader.Live.Client.{Venue}
use vm_quant_trader.Live.Broker.{Broker, ask, now, on_portfolio, master_equity}
use vm_quant_trader.Live.Collect.{advance_to, poll_once, drain_fill_buffer}
use vm_quant_trader.Live.Settle.{is_empty, close_all, close_filled}

-- The assets that a portfolio has positions in, as `list(…keys())` lists them.
abbrev pub symbols_of : {F : Floats} → Option (Portfolio F) → List String
unfolding keys
symbols_of none = []
symbols_of (some p) = keys p.positions

module _ {F : Floats} {W : Type 0} where
  -- A symbol that the venue does not price keeps its valuation.
  unfoldable pub revalue :
      String → String → ℕ → Result F.Num × Broker F W → Result (Unit {0}) × Broker F W
  unfolding on_portfolio update_market_value_of_asset
  revalue id symbol dt (ok price, b) =
      on_portfolio id (update_market_value_of_asset symbol price dt) b
  revalue id symbol dt (err e, b) = (ok tt, b)

module _ {F : Floats} {W : Type 0} (venue : Venue F W) where
  unfoldable pub mark_symbols : String → ℕ → List String → Method (Broker F W) (Unit {0})
  unfolding revalue
  mark_symbols id dt [] = pure tt
  mark_symbols id dt (symbol ∷ symbols) = do
    (λ b. revalue id symbol dt (ask (venue.get_asset_latest_mid_price dt symbol) b))
    mark_symbols id dt symbols

  unfoldable pub mark_portfolios : ℕ → List String → Method (Broker F W) (Unit {0})
  unfolding mark_symbols symbols_of get
  mark_portfolios dt [] = pure tt
  mark_portfolios dt (id ∷ ids) = do
    (λ b. mark_symbols id dt (symbols_of (get b.portfolios id)) b)
    mark_portfolios dt ids

  -- `_mark_to_market()`
  unfoldable pub mark_to_market : Method (Broker F W) (Unit {0})
  unfolding now mark_portfolios keys
  mark_to_market = do
    modify (λ b. record b { world = venue.clear_cache b.world })
    dt ← now venue
    modify (advance_to dt)
    (λ b. mark_portfolios dt (keys b.portfolios) b)

  -- The polls of `update`, which an exception ends: the orders that are done.
  unfoldable pub poll_open : List String → Method (Broker F W) (List String)
  unfolding poll_once
  poll_open [] = pure []
  poll_open (order_no ∷ rest) = do
    is_done ← poll_once venue order_no
    done ← poll_open rest
    pure (if is_done then order_no ∷ done else done)

  -- `if self.open_orders: …`
  unfoldable pub collect : Method (Broker F W) (Unit {0})
  unfolding poll_open drain_fill_buffer close_all close_filled keys
  collect b =
      if is_empty b.open_orders
      then (ok tt, b)
      else (do
        done ← poll_open (keys b.open_orders)
        drain_fill_buffer venue
        modify (close_all done (close_filled venue)))
          b

  -- `update(dt, force)`
  unfoldable pub update : ℕ → Bool → Method (Broker F W) (Unit {0})
  unfolding collect mark_to_market
  update dt force b0 =
      let b : Broker F W = if ltb b0.current_dt dt then record b0 { current_dt = dt } else b0 in
      if not force && ltb dt (b.last_poll_dt + b.poll_throttle)
      then (ok tt, b)
      else (do collect; mark_to_market) (record b { last_poll_dt = dt })

  -- `record_equity()`
  unfoldable pub record_equity : Method (Broker F W) (Unit {0})
  unfolding now append_equity master_equity
  record_equity = do
    dt ← now venue
    modify (λ b. record b { ledger = append_equity dt (master_equity b) b.mode b.ledger })
