-- ===== src/Live/Guards/Tests.antt =====
-- A guard with a limit of 1,000 for an order and of two orders for a session.
use vm_quant_trader.Prelude.{
  ◌+◌, length, ◌≤◌, ◌≡◌, refl, String, Bool, false, some, [], ◌∷◌, arith, ◌=ₛ◌,
}
use vm_quant_trader.Prelude.Int.{pos, negsuc, ◌*ℤ◌}
use vm_quant_trader.Errors.{err, order_limit_exceeded, order_value, kill_switch_engaged}
use vm_quant_trader.Floats.Whole.{whole}
use vm_quant_trader.Live.Guards.{SafetyGuard, new_guard, check_order}
use vm_quant_trader.Live.Guards.Gate.{submitted, session_budget}

abbrev guard : SafetyGuard whole
unfolding new_guard
guard = new_guard whole (some "STOP") (some (pos 1000)) (some 2)

abbrev no_file : String → Bool
no_file path = false

too_large : check_order no_file (negsuc 10) (pos 100) guard ≡ err (order_limit_exceeded order_value)
unfolding check_order guard ◌*ℤ◌
too_large = refl

switched_off :
    check_order (λ path. path =ₛ "STOP") (pos 1) (pos 100) guard ≡ err kill_switch_engaged
unfolding check_order guard ◌*ℤ◌
switched_off = refl

session_budget_example :
    guard.orders_submitted
      + length (submitted no_file ((pos 1, pos 9) ∷ (pos 2, pos 9) ∷ (pos 3, pos 9) ∷ []) guard)
    ≤ 2
unfolding guard
session_budget_example =
    session_budget no_file ((pos 1, pos 9) ∷ (pos 2, pos 9) ∷ (pos 3, pos 9) ∷ []) guard 2 refl
      (omega arith)
