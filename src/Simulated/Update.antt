-- ===== src/Simulated/Update.antt =====
-- The order queues of the simulated broker and its clock: submitting, executing and updating
-- (vmtrader/broker/simulated_broker.py).
pub mod Sorted
pub mod Shares
pub mod Executed
pub mod Conserves
pub mod Returns
pub mod Liveness
use vm_quant_trader.Prelude.{
  ℕ, String, Bool, true, false, Option, none, some, List, [], ◌∷◌, ◌++◌, map, ◌&&◌, if◌then◌else◌,
}
use vm_quant_trader.Prelude.Int.{ℤ, pos, ltb_ℤ, leb_ℤ}
use vm_quant_trader.Errors.{
  Method, Result, ok, err, bad, unknown_portfolio, no_price, not_a_number, pure, raise, gets,
  modify, raise_if, ◌>>=◌, ◌>>◌,
}
use vm_quant_trader.Floats.{Floats, zero_num}
use vm_quant_trader.Dict.{Dict, get, put, keys}
use vm_quant_trader.Order.{Order}
use vm_quant_trader.Transaction.{Transaction}
use vm_quant_trader.FeeModel.{calc_total_cost}
use vm_quant_trader.Portfolio.{Portfolio, transact_asset, update_market_value_of_asset}
use vm_quant_trader.Simulated.Market.{Market}
use vm_quant_trader.Simulated.Broker.{Broker, the_portfolio, on_portfolio}

-- An order with the portfolio that it is for.
abbrev pub Ticket : Floats → Type 0
Ticket F = String × Order F

module _ {F : Floats} where
  -- `self.open_orders[portfolio_id]`
  unfoldable pub the_queue : String → Method (Broker F) (List (Order F))
  unfolding get
  the_queue id b =
      (elim (get b.open_orders id) [ none ↦ err (bad unknown_portfolio) | some q ↦ ok q ], b)

  unfoldable pub set_queue : String → List (Order F) → Method (Broker F) (Unit {0})
  unfolding put
  set_queue id q = modify (λ b. record b { open_orders = put b.open_orders id q })

  -- `submit_order(portfolio_id, order)`
  unfoldable pub submit_order : String → Order F → Method (Broker F) (Unit {0})
  unfolding the_portfolio the_queue set_queue
  submit_order id order = do the_portfolio id; q ← the_queue id; set_queue id (q ++ order ∷ [])

  -- `while not self.open_orders[portfolio].empty(): orders.append(…)`, for one queue
  abbrev pub tickets : String → List (Order F) → List (Ticket F)
  tickets id [] = []
  tickets id (order ∷ q) = (id, order) ∷ tickets id q

  -- The loop over the portfolios: it empties the queues.
  unfoldable pub take_orders : List String → Method (Broker F) (List (Ticket F))
  unfolding the_queue set_queue
  take_orders [] = pure []
  take_orders (id ∷ ids) = do
    q ← the_queue id
    set_queue id []
    others ← take_orders ids
    pure (tickets id q ++ others)

  -- `sorted(orders, key=lambda x: x[1].direction)`. The sort is stable: an order goes before the
  -- first that does not come before it.
  unfoldable pub insert_order : Ticket F → List (Ticket F) → List (Ticket F)
  insert_order t [] = t ∷ []
  insert_order t (u ∷ us) =
      if leb_ℤ (t.1).direction (u.1).direction then t ∷ u ∷ us else u ∷ insert_order t us

  unfoldable pub sort_orders : List (Ticket F) → List (Ticket F)
  unfolding insert_order
  sort_orders [] = []
  sort_orders (t ∷ ts) = insert_order t (sort_orders ts)

  -- The transaction that executes an order.
  unfoldable pub execution : ℕ → F.Num → F.Num → Order F → Transaction F
  execution dt price commission order = record {
    asset = order.asset;
    quantity = order.quantity;
    dt = dt;
    price = price;
    order_id = order.order_id;
    commission = commission;
  }

  -- `symbols = self.portfolios[portfolio].pos_handler.positions`
  unfoldable pub symbols_of : String → Method (Broker F) (List String)
  unfolding the_portfolio keys
  symbols_of id = do p ← the_portfolio id; pure (keys p.positions)

module _ {F : Floats} (market : Market F) where
  -- The price that an order is executed at: the ask of a purchase, the bid of a sale.
  unfoldable pub quoted : ℕ → Order F → F.Num
  quoted dt order =
      let (bid, ask) = market.get_asset_latest_bid_ask_price dt order.asset in
      if ltb_ℤ (pos 0) order.direction then ask else bid

  -- `bid_ask == (np.nan, np.nan)`. Python takes the object `np.nan` as equal to itself; another NaN
  -- passes here and raises a ValueError too, at `round`.
  unfoldable pub unpriced : ℕ → Order F → Bool
  unpriced dt order =
      let (bid, ask) = market.get_asset_latest_bid_ask_price dt order.asset in
      F.is_nan bid && F.is_nan ask

  -- `round(price * order.quantity)`
  unfoldable pub consideration : ℕ → Order F → Method (Broker F) ℤ
  unfolding quoted
  consideration dt order b = (
    elim (F.round (F.mul (quoted dt order) (F.of_int order.quantity))) [
      | none ↦ err (bad not_a_number)
      | some n ↦ ok n
    ],
    b,
  )

  -- `_execute_order(dt, portfolio_id, order)`. Too little cash only prints a warning.
  unfoldable pub execute_order : ℕ → String → Order F → Method (Broker F) (Unit {0})
  unfolding unpriced consideration quoted calc_total_cost the_portfolio on_portfolio execution
  execute_order dt id order = do
    raise_if (unpriced dt order) (bad no_price)
    n ← consideration dt order
    fees ← gets (λ b. calc_total_cost b.fee_model order.asset order.quantity (F.of_int n))
    the_portfolio id
    (λ b. on_portfolio id (transact_asset (execution b.current_dt (quoted dt order) fees order)) b)

  -- `for portfolio, order in sorted_orders: …`
  unfoldable pub execute_orders : ℕ → List (Ticket F) → Method (Broker F) (Unit {0})
  unfolding execute_order
  execute_orders dt [] = pure tt
  execute_orders dt ((id, order) ∷ rest) = do execute_order dt id order; execute_orders dt rest

  unfoldable pub mark_symbols : ℕ → String → List String → Method (Broker F) (Unit {0})
  unfolding on_portfolio
  mark_symbols dt id [] = pure tt
  mark_symbols dt id (asset ∷ assets) = do
    on_portfolio id
        (update_market_value_of_asset asset (market.get_asset_latest_mid_price dt asset) dt)
    mark_symbols dt id assets

  unfoldable pub mark_portfolios : ℕ → List String → Method (Broker F) (Unit {0})
  unfolding symbols_of mark_symbols
  mark_portfolios dt [] = pure tt
  mark_portfolios dt (id ∷ ids) = do
    assets ← symbols_of id
    mark_symbols dt id assets
    mark_portfolios dt ids

  -- The second half of `update`.
  unfoldable pub trade : ℕ → Method (Broker F) (Unit {0})
  unfolding take_orders execute_orders sort_orders keys
  trade dt = do
    ids ← gets (λ b. keys b.portfolios)
    orders ← take_orders ids
    execute_orders dt (sort_orders orders)

  unfoldable pub trade_when_open : ℕ → Method (Broker F) (Unit {0})
  unfolding trade
  trade_when_open dt = if market.is_open_at_datetime dt then trade dt else pure tt

  -- `update(dt)`
  unfoldable pub update : ℕ → Method (Broker F) (Unit {0})
  unfolding mark_portfolios trade_when_open keys
  update dt = do
    modify (λ b. record b { current_dt = dt })
    ids ← gets (λ b. keys b.portfolios)
    mark_portfolios dt ids
    trade_when_open dt
