-- ===== src/Live/Guards.antt =====
-- Pre-trade limits and stop signals (vmtrader/broker/live/guards.py). Whether a file exists is
-- asked of the operating system: it is the argument `exists`.
pub mod Gate
mod Tests
use vm_quant_trader.Prelude.{
  ℕ, ◌+◌, String, Bool, true, false, not, ◌&&◌, Option, none, some, leb, if◌then◌else◌, is_some,
}
use vm_quant_trader.Prelude.Int.{ℤ, abs}
use vm_quant_trader.Errors.{
  Result, ok, err, Exc, kill_switch_engaged, trading_halted, order_limit_exceeded, order_value,
  session_orders,
}
use vm_quant_trader.Floats.{Floats, amount}

pub record SafetyGuard (F : Floats) : Type 0 where
  pub kill_switch_path : Option String
  pub max_order_value : Option F.Num
  pub max_orders_per_session : Option ℕ
  pub orders_submitted : ℕ
  pub halted_reason : Option String

-- `SafetyGuard(kill_switch_path, max_order_value, max_orders_per_session)`
unfoldable pub new_guard : (F : Floats) → Option String → Option F.Num → Option ℕ → SafetyGuard F
new_guard F path value orders = record {
  kill_switch_path = path;
  max_order_value = value;
  max_orders_per_session = orders;
  orders_submitted = 0;
  halted_reason = none;
}

abbrev check_halt : Option String → Result (Unit {0})
check_halt none = ok tt
check_halt (some reason) = err (trading_halted reason)

-- `value > self.max_order_value`, where there is such a limit
abbrev over_value : (F : Floats) → Option F.Num → F.Num → Bool
over_value F none value = false
over_value F (some limit) value = F.lt limit value

-- `self.orders_submitted >= self.max_orders_per_session`, where there is such a limit
abbrev over_orders : Option ℕ → ℕ → Bool
over_orders none n = false
over_orders (some limit) n = leb limit n

module _ {F : Floats} where
  open F use {Num, mul}

  unfoldable pub is_kill_switch_engaged : (String → Bool) → SafetyGuard F → Bool
  is_kill_switch_engaged exists g = elim g.kill_switch_path [
    | none ↦ false
    | some path ↦ exists path
  ]

  unfoldable pub halt : String → SafetyGuard F → SafetyGuard F
  halt reason g = record g { halted_reason = some reason }

  unfoldable pub is_halted : SafetyGuard F → Bool
  is_halted g = is_some g.halted_reason

  -- `check_can_trade()`
  unfoldable pub check_can_trade : (String → Bool) → SafetyGuard F → Result (Unit {0})
  unfolding is_kill_switch_engaged
  check_can_trade exists g =
      if is_kill_switch_engaged exists g
      then err kill_switch_engaged
      else check_halt g.halted_reason

  -- The tests of an order that follow the gate.
  abbrev check_limits : SafetyGuard F → Num → Result (Unit {0})
  check_limits g value =
      if over_value F g.max_order_value value
      then err (order_limit_exceeded order_value)
      else if over_orders g.max_orders_per_session g.orders_submitted
      then err (order_limit_exceeded session_orders)
      else ok tt

  -- `check_order(symbol, quantity, price)`; the symbol is only shown.
  unfoldable pub check_order : (String → Bool) → ℤ → Num → SafetyGuard F → Result (Unit {0})
  unfolding check_can_trade
  check_order exists quantity price g = elim (check_can_trade exists g) [
    | err e ↦ err e
    | ok _ ↦ check_limits g (mul (amount F (abs quantity)) price)
  ]

  unfoldable pub record_submission : SafetyGuard F → SafetyGuard F
  record_submission g = record g { orders_submitted = g.orders_submitted + 1 }
