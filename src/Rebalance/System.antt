-- ===== src/Rebalance/System.antt =====
-- The trading system (vmtrader/system/qts.py) with its execution handler
-- (vmtrader/execution/execution_handler.py, execution_algo/market_order.py): decide, size, submit.
use vm_quant_trader.Prelude.{ℕ, String, Bool, Option, List, [], ◌∷◌, if◌then◌else◌}
use vm_quant_trader.Errors.{Method, Result, ok, err, pure, ◌>>=◌, ◌>>◌}
use vm_quant_trader.Floats.{Floats}
use vm_quant_trader.Dict.{Dict}
use vm_quant_trader.Order.{Order}
use vm_quant_trader.Messaging.Events.{TargetWeights, as_dict}
use vm_quant_trader.Simulated.Market.{Market}
use vm_quant_trader.Simulated.Broker.{Broker}
use vm_quant_trader.Simulated.Update.{submit_order, update}
use vm_quant_trader.Rebalance.Weights.{Universe, AlphaModel, Optimiser, decide_weights}
use vm_quant_trader.Rebalance.Sizer.{OrderSizer, sorted_items}
use vm_quant_trader.Rebalance.Orders.{build_orders}

-- `MarketOrderExecutionAlgorithm()(dt, initial_orders)`
unfoldable pub market_orders : {F : Floats} → ℕ → List (Order F) → List (Order F)
market_orders dt orders = orders

module _ {F : Floats} (market : Market F) (id : String) where
  -- The loop of the execution handler.
  unfoldable pub submit_all : ℕ → List (Order F) → Method (Broker F) (Unit {0})
  unfolding submit_order update
  submit_all dt [] = pure tt
  submit_all dt (order ∷ orders) = do submit_order id order; update market dt; submit_all dt orders

  -- `execution_handler(dt, rebalance_orders)`
  unfoldable pub execute : Bool → ℕ → List (Order F) → Method (Broker F) (Unit {0})
  unfolding submit_all market_orders
  execute submit_orders dt orders =
      if submit_orders then submit_all dt (market_orders dt orders) else pure tt

-- `decide_weights(dt)` of the system: the decision as a message
unfoldable pub decide :
    {F : Floats}
    → Universe
    → Option (AlphaModel F)
    → Option (ℕ → Dict F.Num → Dict F.Num)
    → Optimiser F
    → ℕ
    → Result (TargetWeights F)
unfolding decide_weights sorted_items
decide universe alpha risk optimiser dt = elim (decide_weights universe alpha risk optimiser dt) [
  | err e ↦ err e
  | ok weights ↦ ok (record { dt = dt; weights = sorted_items weights })
]

module _ {F : Floats} (market : Market F) (sizer : OrderSizer F) (universe : Universe)
    (ids : String → String) (id : String) (submit_orders : Bool) where
  -- `size_and_submit(command)`
  unfoldable pub size_and_submit : TargetWeights F → Method (Broker F) (Unit {0})
  unfolding build_orders execute as_dict
  size_and_submit command = do
    orders ← build_orders market sizer universe ids id command.dt (as_dict command)
    execute market id submit_orders command.dt orders
