-- ===== src/Live/Cycle/Tests.antt =====
-- A launch that trades: nothing was open, the market is, and the strategy holds cash.
use vm_quant_trader.Prelude.{ℕ, ◌≡◌, refl, true, none, some, [], ◌∷◌}
use vm_quant_trader.Errors.{ok}
use vm_quant_trader.Floats.Whole.{whole}
use vm_quant_trader.Live.Fixture.{desk, idle}
use vm_quant_trader.Live.Reconcile.{Findings}
use vm_quant_trader.Live.Cycle.{LiveSession, Outcome, run_rebalance}
use vm_quant_trader.Live.Cycle.Gates.{Passed, run_rebalance-Passed}

abbrev session : LiveSession whole ℕ
session = record {
  venue = desk;
  decide = λ now b. (ok (record { dt = now; weights = [] }), b);
  size_and_submit = λ c b. (ok tt, b);
  on_fill = λ e b. (ok tt, b);
  warm_up_signals = some (λ now b. (ok (("005930", 20) ∷ []), b));
  is_trading_day = λ now. true;
  date = λ now. 0;
  close_of = λ now. 90;
  rebalance_dates = some (7 ∷ []);
  time_budget = 60;
  close_buffer = 10;
  synchronous = true;
}

abbrev nothing_found : Findings
nothing_found = record {
  resolved_orders = [];
  orphan_intents = [];
  overstated = [];
  untracked = [];
}

abbrev outcome : Outcome
outcome = record {
  started_at = idle.world;
  traded = true;
  findings = nothing_found;
  fills_booked = 0;
  reason = none;
  signals_warmed = some (("005930", 20) ∷ []);
}

runs : (run_rebalance session 3 2 idle).0 ≡ ok outcome
unfolding run_rebalance
runs = refl

run_rebalance-Passed_example : Passed session 3 2 idle outcome
run_rebalance-Passed_example = run_rebalance-Passed session 3 2 idle outcome runs refl
