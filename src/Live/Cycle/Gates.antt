-- ===== src/Live/Cycle/Gates.antt =====
-- What a live launch that traded had passed.
use vm_quant_trader.Prelude.{
  ℕ, ◌≡◌, refl, ap, ◌∙◌, String, true, false, Option, none, some, List, [], ◌∷◌, arith, Bool-cases,
  inl, inr,
}
use vm_quant_trader.Errors.{Method, Result, ok, err, kill_switch_engaged, is_ok, continue, ◌>>=◌}
use vm_quant_trader.Floats.{Floats}
use vm_quant_trader.Dict.{Dict}
use vm_quant_trader.StrategyExecutor.Cycle.{decide_and_submit}
use vm_quant_trader.Live.Guards.{check_can_trade}
use vm_quant_trader.Live.Broker.{Broker}
use vm_quant_trader.Live.Settle.{settle}
use vm_quant_trader.Live.Session.{update}
use vm_quant_trader.Live.Reconcile.{Findings, halt_trading, reconcile}
use vm_quant_trader.Live.Cycle.{
  LiveSession, Outcome, refused, starved, is_rebalance_day, deadline, reads_clock, warm, trade,
  unless_any, unless_starved, size_up, on_the_day, permitted, with_findings, run_rebalance,
}

-- A block that returns: what its first half gave, and its rest.
continue-ok {ℓ κ} :
    {S : Type 0} {A : Type ℓ} {B : Type κ} (f : A → Method S B) (out : Result A × S) (b : B)
    → (continue f out).0 ≡ ok b
    → (a : A) × (out ≡ (ok a, out.1)) × ((f a out.1).0 ≡ ok b)
continue-ok f (ok a, s) b h = (a, refl, h)
continue-ok f (err e, s) b h = cc

module _ {F : Floats} {W : Type 0} (s : LiveSession F W) (fuel rounds : ℕ) where
  -- An outcome that goes with the launch: its time, its findings and its signals, none of them
  -- starved.
  record IsOf (now : ℕ) (findings : Findings) (o : Outcome) : Type 0 where
    time : o.started_at ≡ now
    found : o.findings ≡ findings
    fed : (counts : Dict ℕ) → o.signals_warmed ≡ some counts → starved counts ≡ []

  trade-IsOf :
      (now : ℕ) (findings : Findings) (warmed : Option (Dict ℕ)) (b : Broker F W) (o : Outcome)
      → ((counts : Dict ℕ) → warmed ≡ some counts → starved counts ≡ [])
      → (trade s fuel rounds now findings warmed b).0 ≡ ok o
      → IsOf now findings o
  unfolding trade
  trade-IsOf now findings warmed b o fed h =
      let decision =
        decide_and_submit s.decide s.on_fill (λ e b. b) s.size_and_submit s.synchronous rounds
          now in
      let (traded, _, h1) = continue-ok _ (decision b) o h in
      let (booked, _, h2) =
        continue-ok _ (settle s.venue fuel (deadline s now) (decision b).1) o h1 in
      record {
        time = ground (arith, h2);
        found = ground (arith, h2);
        fed = λ counts e. fed counts (ground (arith, h2, e));
      }

  unless_any-IsOf :
      (now : ℕ) (findings : Findings) (counts : Dict ℕ) (hungry : List String) (b : Broker F W)
      (o : Outcome)
      → starved counts ≡ hungry
      → (unless_any s fuel rounds now findings counts hungry b).0 ≡ ok o
      → o.traded ≡ true
      → IsOf now findings o
  unfolding unless_any refused
  unless_any-IsOf now findings counts [] b o e h t =
      trade-IsOf now findings (some counts) b o (λ c same. ground (arith, e, same)) h
  unless_any-IsOf now findings counts (x ∷ xs) b o e h t = ground (arith, h, t)

  unless_starved-IsOf :
      (now : ℕ) (findings : Findings) (warmed : Option (Dict ℕ)) (b : Broker F W) (o : Outcome)
      → (unless_starved s fuel rounds now findings warmed b).0 ≡ ok o
      → o.traded ≡ true
      → IsOf now findings o
  unfolding unless_starved
  unless_starved-IsOf now findings none b o h t = trade-IsOf now findings none b o (λ c e. cc) h
  unless_starved-IsOf now findings (some counts) b o h t =
      unless_any-IsOf now findings counts (starved counts) b o refl h t

  size_up-IsOf :
      (now : ℕ) (findings : Findings) (b : Broker F W) (o : Outcome)
      → (size_up s fuel rounds now findings b).0 ≡ ok o
      → o.traded ≡ true
      → IsOf now findings o
  unfolding size_up
  size_up-IsOf now findings b o h t =
      let marked = update s.venue now true b in
      let (_, _, h1) = continue-ok _ marked o h in
      let (warmed, _, h2) = continue-ok _ (warm s now marked.1) o h1 in
      unless_starved-IsOf now findings warmed (warm s now marked.1).1 o h2 t

  -- The gates that a launch passes at a broker that was reconciled.
  record Open (now : ℕ) (findings : Findings) (b : Broker F W) (o : Outcome) : Type 0 where
    outcome : IsOf now findings o
    day : is_rebalance_day s now ≡ true
    hours : s.venue.is_open_at_datetime now b.world ≡ true

  on_the_day-Open :
      (now : ℕ) (findings : Findings) (b : Broker F W) (o : Outcome)
      → (on_the_day s fuel rounds now findings b).0 ≡ ok o
      → o.traded ≡ true
      → Open now findings b o
  unfolding on_the_day refused
  on_the_day-Open now findings b o h t = elim (Bool-cases (is_rebalance_day s now)) [
    | inr other_day ↦ ground (arith, rw other_day at h, t)
    | inl day ↦ elim (Bool-cases (s.venue.is_open_at_datetime now b.world)) [
      | inr shut ↦ ground (arith, rw (day, shut) at h, t)
      | inl hours ↦ record {
        outcome = size_up-IsOf now findings b o (rw (day, hours) at h) t;
        day = day;
        hours = hours;
      }
    ]
  ]

  permitted-Open :
      (now : ℕ) (findings : Findings) (verdict : Result (Unit {0})) (b : Broker F W) (o : Outcome)
      → (permitted s fuel rounds now findings verdict b).0 ≡ ok o
      → o.traded ≡ true
      → (is_ok verdict ≡ true) × Open now findings b o
  unfolding permitted refused
  permitted-Open now findings (ok x) b o h t = (refl, on_the_day-Open now findings b o h t)
  permitted-Open now findings (err kill_switch_engaged) b o h t = ground (arith, h, t)
  permitted-Open now findings (err _) b o h t = cc

  with_findings-Open :
      (now : ℕ) (findings : Findings) (b : Broker F W) (o : Outcome)
      → (with_findings s fuel rounds now findings b).0 ≡ ok o
      → o.traded ≡ true
      → (halt_trading findings ≡ false)
        × (is_ok (check_can_trade (s.venue.path_exists b.world) b.guard) ≡ true)
        × Open now findings b o
  unfolding with_findings refused
  with_findings-Open now findings b o h t = elim (Bool-cases (halt_trading findings)) [
    | inl halts ↦ ground (arith, rw halts at h, t)
    | inr agrees ↦
        let (allowed, gates) =
          permitted-Open now findings (check_can_trade (s.venue.path_exists b.world) b.guard) b o
            (rw agrees at h) t in
        (agrees, allowed, gates)
  ]

  -- What a launch that traded had passed: `b` is the broker before it, and `c` after its
  -- reconciliation.
  pub record Passed (b : Broker F W) (o : Outcome) : Type 0 where
    pub c : Broker F W
    pub reconciled : reconcile s.venue true (reads_clock s b).1 ≡ (ok o.findings, c)
    pub agreed : halt_trading o.findings ≡ false
    pub allowed : is_ok (check_can_trade (s.venue.path_exists c.world) c.guard) ≡ true
    pub day : is_rebalance_day s o.started_at ≡ true
    pub hours : s.venue.is_open_at_datetime o.started_at c.world ≡ true
    pub fed : (counts : Dict ℕ) → o.signals_warmed ≡ some counts → starved counts ≡ []

  -- A launch whose outcome says that it traded, at whichever broker it began: the venue had been
  -- reconciled with without cause to halt, the guard then let it trade, the time was that of a
  -- rebalance day and of an open market, and no signal that was warmed was left without history.
  pub run_rebalance-Passed :
      (b : Broker F W) (o : Outcome)
      → (run_rebalance s fuel rounds b).0 ≡ ok o
      → o.traded ≡ true
      → Passed b o
  unfolding run_rebalance
  run_rebalance-Passed b o h t =
      let b1 = (reads_clock s b).1 in
      let (now, at_now, h1) =
        continue-ok
          (λ (now : ℕ). reconcile s.venue true >>= λ (findings : Findings).
            with_findings s fuel rounds now findings)
          (reads_clock s b) o h in
      let (findings, found, h2) =
        continue-ok (λ (findings : Findings). with_findings s fuel rounds now findings)
          (reconcile s.venue true b1) o h1 in
      let c = (reconcile s.venue true b1).1 in
      let (agrees, allowed, gates) = with_findings-Open now findings c o h2 t in
      record {
        c = c;
        reconciled = rw gates.outcome.found found;
        agreed = rw gates.outcome.found agrees;
        allowed = allowed;
        day = ap (is_rebalance_day s) gates.outcome.time ∙ gates.day;
        hours = rw gates.outcome.time gates.hours;
        fed = gates.outcome.fed;
      }
