-- ===== src/Messaging/Events.antt =====
-- The messages (vmtrader/messaging/order.py, lifecycle.py, command.py) and their topics
-- (trading_events.py). A timestamp is the number of nanoseconds since a fixed start.
use vm_quant_trader.Prelude.{ℕ, String, List}
use vm_quant_trader.Prelude.Int.{ℤ}
use vm_quant_trader.Floats.{Floats}
use vm_quant_trader.Dict.{Dict, of_pairs}

pub record OrderAccepted : Type 0 where
  pub order_no : String
  pub order_id : String
  pub symbol : String
  pub quantity : ℤ
  pub dt : ℕ

pub record OrderModified : Type 0 where
  pub order_no : String
  pub original_order_no : String
  pub order_id : String
  pub symbol : String
  pub quantity : ℤ
  pub dt : ℕ

pub record OrderCanceled : Type 0 where
  pub order_no : String
  pub original_order_no : String
  pub order_id : String
  pub symbol : String
  pub quantity : ℤ
  pub dt : ℕ

pub record OrderFilled (F : Floats) : Type 0 where
  pub order_no : String
  pub symbol : String
  pub quantity : ℤ
  pub cumulative_filled : ℕ
  pub average_price : F.Num
  pub cumulative_fees : F.Num
  pub dt : ℕ

pub record OrderRejected : Type 0 where
  pub order_no : String
  pub symbol : String
  pub quantity : ℤ
  pub reason : String
  pub dt : ℕ

pub record OrderError : Type 0 where
  pub order_id : String
  pub order_no : String
  pub symbol : String
  pub quantity : ℤ
  pub reason : String
  pub dt : ℕ

pub record RebalanceDue : Type 0 where
  pub dt : ℕ

pub record EndOfDay : Type 0 where
  pub dt : ℕ

pub record PollDue : Type 0 where
  pub dt : ℕ

pub record TargetWeights (F : Floats) : Type 0 where
  pub dt : ℕ
  pub weights : List (String × F.Num)

-- An instance of one of the subclasses of `TradingEventMessage`.
pub data Message (F : Floats) : Type 0 where
  order_accepted : OrderAccepted → Message F
  order_modified : OrderModified → Message F
  order_canceled : OrderCanceled → Message F
  order_filled : OrderFilled F → Message F
  order_rejected : OrderRejected → Message F
  order_error : OrderError → Message F
  rebalance_due : RebalanceDue → Message F
  end_of_day : EndOfDay → Message F
  poll_due : PollDue → Message F
  target_weights : TargetWeights F → Message F

module _ {F : Floats} where
  -- `event_name`
  unfoldable pub event_name : Message F → String
  event_name (order_accepted e) = "accepted"
  event_name (order_modified e) = "modified"
  event_name (order_canceled e) = "canceled"
  event_name (order_filled e) = "filled"
  event_name (order_rejected e) = "rejected"
  event_name (order_error e) = "error"
  event_name (rebalance_due e) = "rebalance_due"
  event_name (end_of_day e) = "end_of_day"
  event_name (poll_due e) = "poll_due"
  event_name (target_weights e) = "target_weights"

  -- `as_dict()`
  unfoldable pub as_dict : TargetWeights F → Dict F.Num
  unfolding of_pairs
  as_dict c = of_pairs c.weights
