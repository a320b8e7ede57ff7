-- ===== src/Live/Guards/Gate.antt =====
-- The gate: what a passed check says, what a refusal is, and the session budget.
use vm_quant_trader.Prelude.{
  not, ℕ, ◌+◌, ◌≤◌, ◌≡◌, length, Bool-cases, inl, inr, String, Bool, true, false, some, List, [],
  ◌∷◌, arith, if◌then◌else◌, ◌||◌,
}
use vm_quant_trader.Prelude.Int.{ℤ, abs}
use vm_quant_trader.Errors.{Result, ok, err, is_ok, is_stop_requested}
use vm_quant_trader.Floats.{Floats, amount}
use vm_quant_trader.Live.Guards.{
  SafetyGuard, over_value, over_orders, is_kill_switch_engaged, is_halted, check_can_trade,
  check_order, record_submission,
}

-- Whether an outcome is a stop signal.
abbrev pub stops {ℓ} : {A : Type ℓ} → Result A → Bool
stops (ok a) = false
stops (err e) = is_stop_requested e

module _ {F : Floats} (exists : String → Bool) where
  -- The gate raises exactly when the switch file exists or the session was halted, and what it
  -- raises is always a stop signal. An order check raises a stop signal in just those cases, and
  -- returns in just the cases where trading is not stopped and neither limit is exceeded.
  pub check_order_outcome :
      (q : ℤ) (price : F.Num) (g : SafetyGuard F)
      → let stopped = is_kill_switch_engaged exists g || is_halted g in
        let value = F.mul (amount F (abs q)) price in
        (stops (check_can_trade exists g) ≡ stopped)
        × (is_ok (check_can_trade exists g) ≡ not stopped)
        × (stops (check_order exists q price g) ≡ stopped)
        × (is_ok (check_order exists q price g)
            ≡ not (
                stopped
                || over_value F g.max_order_value value
                || over_orders g.max_orders_per_session g.orders_submitted))
  unfolding check_order is_halted is_stop_requested
  check_order_outcome q price g = ground arith

  -- A session: orders that are checked and, when the check returns, submitted and counted. It gives
  -- the orders that were submitted.
  abbrev pub submitted : List (ℤ × F.Num) → SafetyGuard F → List (ℤ × F.Num)
  submitted [] g = []
  submitted ((q, price) ∷ l) g =
      let passed = is_ok (check_order exists q price g) in
      let rest = submitted l (if passed then record_submission g else g) in
      if passed then (q, price) ∷ rest else rest

  -- An order that passes is within the budget, and is counted.
  passes :
      (q : ℤ) (price : F.Num) (g : SafetyGuard F) (n : ℕ)
      → g.max_orders_per_session ≡ some n
      → is_ok (check_order exists q price g) ≡ true
      → let g' = record_submission g in
        (g'.max_orders_per_session ≡ some n)
        × (g'.orders_submitted ≤ n)
        × (g'.orders_submitted ≡ g.orders_submitted + 1)
  unfolding record_submission
  passes q price g n e passed = ground (arith, check_order_outcome q price g)

  -- For a guard with a limit of orders, that has counted no more than it: however many orders a
  -- session tries, at whatever prices, those that pass the check and are submitted are, together
  -- with those counted before, never more than the limit.
  pub session_budget :
      (l : List (ℤ × F.Num)) (g : SafetyGuard F) (n : ℕ)
      → g.max_orders_per_session ≡ some n
      → g.orders_submitted ≤ n
      → g.orders_submitted + length (submitted l g) ≤ n
  session_budget [] g n e h = omega arith
  session_budget ((q, price) ∷ l) g n e h =
      elim (Bool-cases (is_ok (check_order exists q price g))) [
        | inl passed ↦
            let (e', h', one) = passes q price g n e passed in
            rw passed (omega (arith, one, session_budget l (record_submission g) n e' h'))
        | inr refused ↦ rw refused (session_budget l g n e h)
      ]
