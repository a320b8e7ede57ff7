-- ===== src/Simulated/Sound/Updates.antt =====
-- `update` keeps the shape of the simulated broker, also when it raises.
use vm_quant_trader.Prelude.{
  ℕ, ◌≡◌, String, some, List, [], ◌∷◌, ◌++◌, arith, Option-cases, Bool-cases, inl, inr,
}
use vm_quant_trader.Errors.{pure}
use vm_quant_trader.Floats.{Floats}
use vm_quant_trader.Dict.{get, keys}
use vm_quant_trader.Order.{Order}
use vm_quant_trader.FeeModel.{calc_total_cost}
use vm_quant_trader.Portfolio.{transact_asset, update_market_value_of_asset}
use vm_quant_trader.Simulated.Market.{Market}
use vm_quant_trader.Simulated.Broker.{Broker, the_portfolio, on_portfolio}
use vm_quant_trader.Simulated.Update.{
  the_queue, set_queue, Ticket, tickets, take_orders, sort_orders, execution, symbols_of, quoted,
  consideration, execute_order, execute_orders, mark_symbols, mark_portfolios, trade,
  trade_when_open, update,
}
use vm_quant_trader.Simulated.Sound.{
  IsSound, on_portfolio-Soundly, transact_asset-Keeps, mark-Keeps,
}
use vm_quant_trader.Simulated.Sound.Transfers.{Keeping, bind-Keeping, set_queue-IsSound}

module _ {F : Floats} where
  empty_queue-Keeping :
      (id : String) (q : List (Order F)) (b : Broker F)
      → get b.open_orders id ≡ some q
      → IsSound b
      → IsSound (set_queue id [] b).1
  empty_queue-Keeping id q b e v = set_queue-IsSound id [] q b e v

  pub take_orders-Keeping : (ids : List String) → Keeping (take_orders {F = F} ids)
  unfolding take_orders
  take_orders-Keeping [] b v = v
  take_orders-Keeping (id ∷ ids) b v = elim (Option-cases (get b.open_orders id)) [
    | inl e ↦ rw (e, the_queue) v
    | inr (q, e) ↦
        rw (e, the_queue)
          (bind-Keeping (take_orders {F = F} ids)
            (λ (others : List (Ticket F)). pure (tickets id q ++ others)) (take_orders-Keeping ids)
            (λ others c w. w) (set_queue id [] b).1 (set_queue-IsSound id [] q b e v))
  ]

module _ {F : Floats} (market : Market F) where
  pub execute_order-Keeping :
      (dt : ℕ) (id : String) (order : Order F) → Keeping (execute_order market dt id order)
  unfolding execute_order consideration the_portfolio
  execute_order-Keeping dt id order b v =
      elim (Option-cases (F.round (F.mul (quoted market dt order) (F.of_int order.quantity)))) [
        | inl e ↦ ground (arith, e, v)
        | inr (n, e) ↦
            let fees = calc_total_cost b.fee_model order.asset order.quantity (F.of_int n) in
            let t = execution b.current_dt (quoted market dt order) fees order in
            ground
              (arith, e, v, on_portfolio-Soundly id (transact_asset t) (transact_asset-Keeps t) b v)
      ]

  pub execute_orders-Keeping :
      (dt : ℕ) (ts : List (Ticket F)) → Keeping (execute_orders market dt ts)
  unfolding execute_orders
  execute_orders-Keeping dt [] b v = v
  execute_orders-Keeping dt ((id, order) ∷ ts) b v =
      bind-Keeping (execute_order market dt id order) (λ _. execute_orders market dt ts)
        (execute_order-Keeping dt id order) (λ _. execute_orders-Keeping dt ts) b v

  pub mark_symbols-Keeping :
      (dt : ℕ) (id : String) (assets : List String) → Keeping (mark_symbols market dt id assets)
  unfolding mark_symbols
  mark_symbols-Keeping dt id [] b v = v
  mark_symbols-Keeping dt id (asset ∷ assets) b v =
      let price = market.get_asset_latest_mid_price dt asset in
      bind-Keeping (on_portfolio id (update_market_value_of_asset asset price dt))
        (λ _. mark_symbols market dt id assets)
        (on_portfolio-Soundly id (update_market_value_of_asset asset price dt)
          (mark-Keeps asset price dt))
        (λ _. mark_symbols-Keeping dt id assets) b v

  pub mark_portfolios-Keeping :
      (dt : ℕ) (ids : List String) → Keeping (mark_portfolios market dt ids)
  unfolding mark_portfolios
  mark_portfolios-Keeping dt [] b v = v
  mark_portfolios-Keeping dt (id ∷ ids) b v = elim (Option-cases (get b.portfolios id)) [
    | inl e ↦ rw (e, symbols_of) v
    | inr (p, e) ↦
        rw (e, symbols_of)
          (bind-Keeping (mark_symbols market dt id (keys p.positions))
            (λ _. mark_portfolios market dt ids) (mark_symbols-Keeping dt id (keys p.positions))
            (λ _. mark_portfolios-Keeping dt ids) b v)
  ]

  trade-Keeping : (dt : ℕ) → Keeping (trade market dt)
  unfolding trade
  trade-Keeping dt b v =
      bind-Keeping (take_orders (keys b.portfolios))
        (λ (orders : List (Ticket F)). execute_orders market dt (sort_orders orders))
        (take_orders-Keeping (keys b.portfolios))
        (λ orders. execute_orders-Keeping dt (sort_orders orders)) b v

  trade_when_open-Keeping : (dt : ℕ) → Keeping (trade_when_open market dt)
  unfolding trade_when_open
  trade_when_open-Keeping dt b v = elim (Bool-cases (market.is_open_at_datetime dt)) [
    | inl open_now ↦ rw open_now (trade-Keeping dt b v)
    | inr shut ↦ rw shut v
  ]

  pub update-Keeping : (dt : ℕ) → Keeping (update market dt)
  unfolding update
  update-Keeping dt b v =
      let now : Broker F = record b { current_dt = dt } in
      let sound : IsSound now = record {
        account = v.account;
        paired = v.paired;
        filed = v.filed;
        named = v.named;
      } in
      bind-Keeping (mark_portfolios market dt (keys b.portfolios)) (λ _. trade_when_open market dt)
        (mark_portfolios-Keeping dt (keys b.portfolios)) (λ _. trade_when_open-Keeping dt) now sound
