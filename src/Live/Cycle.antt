-- ===== src/Live/Cycle.antt =====
-- A live launch (vmtrader/trading/live.py): reconcile, pass the gates, decide and submit, settle,
-- exit; and the launch after the close. The session's trading system is a parameter: its
-- `decide_weights` and its `size_and_submit`, on this broker. So are warming the signals, the
-- exchange's calendar and its closing time. A timestamp's date is that of the exchange's time zone.
pub mod Gates
mod Tests
use vm_quant_trader.Prelude.{
  ℕ, ◌+◌, ◌-◌, min, String, Bool, true, false, not, ◌&&◌, ◌||◌, Option, none, some, List, [], ◌∷◌,
  ◌==◌, if◌then◌else◌,
}
use vm_quant_trader.Errors.{Method, Result, ok, err, Exc, kill_switch_engaged, pure, ◌>>=◌, ◌>>◌}
use vm_quant_trader.Floats.{Floats}
use vm_quant_trader.Dict.{Dict}
use vm_quant_trader.Messaging.Events.{TargetWeights, OrderFilled}
use vm_quant_trader.StrategyExecutor.Cycle.{decide_and_submit}
use vm_quant_trader.Live.Guards.{check_can_trade}
use vm_quant_trader.Live.Client.{Venue}
use vm_quant_trader.Live.Broker.{Broker, master_equity}
use vm_quant_trader.Live.Settle.{settle}
use vm_quant_trader.Live.Session.{update, record_equity}
use vm_quant_trader.Live.Reconcile.{Findings, halt_trading, reconcile}

-- `outcome['reason']`
pub data Reason : Type 0 where
  reconciliation_halted : Reason
  kill_switch : Reason
  not_a_rebalance_day : Reason
  market_closed : Reason
  no_signal_history : List String → Reason
  no_decision : Reason

-- What happened.
pub record Outcome : Type 0 where
  pub started_at : ℕ
  pub traded : Bool
  pub findings : Findings
  pub fills_booked : ℕ
  pub reason : Option Reason
  pub signals_warmed : Option (Dict ℕ)

unfoldable pub refused : ℕ → Findings → Option (Dict ℕ) → Reason → Outcome
refused now findings warmed reason = record {
  started_at = now;
  traded = false;
  findings = findings;
  fills_booked = 0;
  reason = some reason;
  signals_warmed = warmed;
}

-- The assets whose signals have no history.
unfoldable pub starved : Dict ℕ → List String
starved [] = []
starved ((asset, count) ∷ d) = let rest = starved d in if count == 0 then asset ∷ rest else rest

pub record LiveSession (F : Floats) (W : Type 0) : Type 0 where
  pub venue : Venue F W
  -- `qts.decide_weights`, `qts.size_and_submit`, and the strategy's `on_fill`
  pub decide : ℕ → Method (Broker F W) (TargetWeights F)
  pub size_and_submit : TargetWeights F → Method (Broker F W) (Unit {0})
  pub on_fill : OrderFilled F → Method (Broker F W) (Unit {0})
  -- `warm_up_signals`, where there are signals
  pub warm_up_signals : Option (ℕ → Method (Broker F W) (Dict ℕ))
  pub is_trading_day : ℕ → Bool
  pub date : ℕ → ℕ
  pub close_of : ℕ → ℕ
  pub rebalance_dates : Option (List ℕ)
  pub time_budget : ℕ
  pub close_buffer : ℕ
  pub synchronous : Bool

abbrev pub any_on : (ℕ → ℕ) → ℕ → List ℕ → Bool
any_on date now [] = false
any_on date now (dt ∷ dts) = (date dt == date now) || any_on date now dts

module _ {F : Floats} {W : Type 0} (s : LiveSession F W) where
  -- `_is_rebalance_day(now)`
  unfoldable pub is_rebalance_day : ℕ → Bool
  is_rebalance_day now =
      s.is_trading_day now
      && elim s.rebalance_dates [ none ↦ true | some dts ↦ any_on s.date now dts ]

  -- `_deadline(now)`
  unfoldable pub deadline : ℕ → ℕ
  deadline now = min (now + s.time_budget) (s.close_of now - s.close_buffer)

  -- `self.clock()`
  unfoldable pub reads_clock : Method (Broker F W) ℕ
  reads_clock b = let (t, w) = s.venue.clock b.world in (ok t, record b { world = w })

  -- `_warm_up_signals(now)`
  unfoldable pub warm : ℕ → Method (Broker F W) (Option (Dict ℕ))
  warm now = elim s.warm_up_signals [
    | none ↦ pure none
    | some warms ↦ do counts ← warms now; pure (some counts)
  ]

  -- From the decision on. `fuel` is for the rounds of settlement, `rounds` for the strategy's
  -- thread.
  unfoldable pub trade : ℕ → ℕ → ℕ → Findings → Option (Dict ℕ) → Method (Broker F W) Outcome
  unfolding decide_and_submit settle deadline
  trade fuel rounds now findings warmed = do
    traded ←
        decide_and_submit s.decide s.on_fill (λ e b. b) s.size_and_submit s.synchronous rounds now
    booked ← settle s.venue fuel (deadline now)
    pure (record {
      started_at = now;
      traded = traded;
      findings = findings;
      fills_booked = booked;
      reason = if traded then none else some no_decision;
      signals_warmed = warmed;
    })

  -- The last gate, by the assets whose signals have no history.
  unfoldable pub unless_any :
      ℕ → ℕ → ℕ → Findings → Dict ℕ → List String → Method (Broker F W) Outcome
  unfolding trade refused
  unless_any fuel rounds now findings counts [] = trade fuel rounds now findings (some counts)
  unless_any fuel rounds now findings counts (asset ∷ assets) =
      pure (refused now findings (some counts) (no_signal_history (asset ∷ assets)))

  unfoldable pub unless_starved :
      ℕ → ℕ → ℕ → Findings → Option (Dict ℕ) → Method (Broker F W) Outcome
  unfolding trade unless_any starved
  unless_starved fuel rounds now findings none = trade fuel rounds now findings none
  unless_starved fuel rounds now findings (some counts) =
      unless_any fuel rounds now findings counts (starved counts)

  unfoldable pub size_up : ℕ → ℕ → ℕ → Findings → Method (Broker F W) Outcome
  unfolding unless_starved update warm
  size_up fuel rounds now findings = do
    update s.venue now true
    warmed ← warm now
    unless_starved fuel rounds now findings warmed

  -- The calendar and the opening hours.
  unfoldable pub on_the_day : ℕ → ℕ → ℕ → Findings → Method (Broker F W) Outcome
  unfolding is_rebalance_day size_up refused
  on_the_day fuel rounds now findings b =
      if not (is_rebalance_day now)
      then (ok (refused now findings none not_a_rebalance_day), b)
      else if not (s.venue.is_open_at_datetime now b.world)
      then (ok (refused now findings none market_closed), b)
      else size_up fuel rounds now findings b

  -- `except KillSwitchEngaged`: any other refusal comes out.
  unfoldable pub permitted : ℕ → ℕ → ℕ → Findings → Result (Unit {0}) → Method (Broker F W) Outcome
  unfolding on_the_day refused
  permitted fuel rounds now findings (ok _) b = on_the_day fuel rounds now findings b
  permitted fuel rounds now findings (err kill_switch_engaged) b =
      (ok (refused now findings none kill_switch), b)
  permitted fuel rounds now findings (err e) b = (err e, b)

  unfoldable pub with_findings : ℕ → ℕ → ℕ → Findings → Method (Broker F W) Outcome
  unfolding check_can_trade permitted refused
  with_findings fuel rounds now findings b =
      if halt_trading findings
      then (ok (refused now findings none reconciliation_halted), b)
      else permitted fuel rounds now findings
          (check_can_trade (s.venue.path_exists b.world) b.guard) b

  -- `run_rebalance()`
  unfoldable pub run_rebalance : ℕ → ℕ → Method (Broker F W) Outcome
  unfolding reads_clock reconcile with_findings
  run_rebalance fuel rounds = do
    now ← reads_clock
    findings ← reconcile s.venue true
    with_findings fuel rounds now findings

  -- `run_end_of_day()`: the findings and the equity recorded.
  unfoldable pub run_end_of_day : Method (Broker F W) (Findings × F.Num)
  unfolding reads_clock reconcile update record_equity master_equity
  run_end_of_day = do
    now ← reads_clock
    findings ← reconcile s.venue false
    update s.venue now true
    record_equity s.venue
    (λ b. (ok (findings, master_equity b), b))
