-- ===== src/Live/Reconcile/Halt.antt =====
-- What reconciliation does to the guard: only its own findings halt a session.
use vm_quant_trader.Prelude.{
  ℕ, ◌≡◌, refl, ap, ◌∙◌, String, Bool, true, Option, none, some, List, [], ◌∷◌, ◌++◌, ◌&&◌, arith,
  if◌then◌else◌,
}
use vm_quant_trader.Errors.{Result, ok, err, Method, continue, pure, modify, ◌>>=◌, ◌>>◌}
use vm_quant_trader.Errors.Frame.{IsFrame, Respects, Respects-bind}
use vm_quant_trader.Floats.{Floats}
use vm_quant_trader.Dict.{Dict, get}
use vm_quant_trader.Portfolio.{Portfolio, HoldingRow}
use vm_quant_trader.Live.Guards.{SafetyGuard, halt}
use vm_quant_trader.Live.Ledger.{OrderRow, get_open_orders}
use vm_quant_trader.Live.Client.{Venue, OrderReport}
use vm_quant_trader.Live.Broker.{
  Broker, OpenOrder, Fill, ask, now, on_portfolio, the_portfolio, get_portfolio_as_dict,
  seed_from_venue, seed_portfolio, set_trading_halted,
}
use vm_quant_trader.Live.Collect.{
  ledger_fill, hand_over, booked_of, charged_of, take_report, poll_once, book_increment, book_fill,
  book_fills, drain_fill_buffer, close_order,
}
use vm_quant_trader.Live.Settle.{close_all, close_filled}
use vm_quant_trader.Live.Reconcile.{
  Findings, halt_trading, readmit, orphaned, recover_row, recover_rows, recover_open_orders,
  holdings_of, halt_on, findings_of, conclude, reconcile,
}

-- The guard is left alone.
abbrev pub SameGuard : {F : Floats} {W : Type 0} → Broker F W → Broker F W → Type 0
SameGuard b b' = b'.guard ≡ b.guard

module _ {F : Floats} {W : Type 0} where
  guard_frame : IsFrame (SameGuard {F = F} {W = W})
  guard_frame = record { same = λ b. refl; next = λ a b c h k. k ∙ h }

  abbrev KeepsGuard : {A : Type 0} → Method (Broker F W) A → Type 0
  KeepsGuard m = Respects SameGuard m

  KeepsGuard-bind :
      {A B : Type 0} (m : Method (Broker F W) A) (f : A → Method (Broker F W) B)
      → KeepsGuard m
      → ((a : A) → KeepsGuard (f a))
      → KeepsGuard (m >>= f)
  KeepsGuard-bind m f h k = Respects-bind SameGuard guard_frame m f h k

  holdings_guard : KeepsGuard (holdings_of {F = F} {W = W})
  unfolding holdings_of get_portfolio_as_dict the_portfolio
  holdings_guard b = ground arith

  on_portfolio_guard :
      (id : String) (f : Method (Portfolio F) (Unit {0}))
      → KeepsGuard (on_portfolio {F = F} {W = W} id f)
  unfolding on_portfolio
  on_portfolio_guard id f b = ground arith

module _ {F : Floats} {W : Type 0} (venue : Venue F W) where
  take_report_guard :
      (k : String) (s : OpenOrder F) (report : OrderReport F)
      → KeepsGuard (take_report venue k s report)
  unfolding take_report now ledger_fill hand_over
  take_report_guard k s report b = ground arith

  poll_once_guard : (k : String) → KeepsGuard (poll_once venue k)
  unfolding poll_once
  poll_once_guard k b = by_found (get b.open_orders k)
    where
      by_found :
          (found : Option (OpenOrder F))
          → SameGuard b
              (elim found as (λ x. Result Bool × Broker F W) [
                | none ↦ (ok true, b)
                | some s ↦
                    (do report ← ask (venue.get_order_report k); take_report venue k s report) b
              ]).1
      by_found none = refl
      by_found (some s) =
          KeepsGuard-bind (ask (venue.get_order_report k)) (take_report venue k s) (λ b. refl)
            (take_report_guard k s) b

  book_increment_guard :
      (f : Fill F) (already : ℕ) (charged : F.Num)
      → KeepsGuard (book_increment venue f already charged)
  unfolding book_increment now on_portfolio
  book_increment_guard f already charged b = ground arith

  book_fill_guard : (f : Fill F) → KeepsGuard (book_fill venue f)
  unfolding book_fill
  book_fill_guard f b =
      ground (arith, book_increment_guard f (booked_of b f.order_no) (charged_of b f.order_no) b)

  book_fills_guard : (fs : List (Fill F)) → KeepsGuard (book_fills venue fs)
  unfolding book_fills
  book_fills_guard [] b = refl
  book_fills_guard (f ∷ fs) b =
      ground (arith, book_fill_guard f b, book_fills_guard fs (book_fill venue f b).1)

  close_guard :
      (done : List String) (b : Broker F W) → SameGuard b (close_all done (close_filled venue) b)
  unfolding close_all close_filled close_order
  close_guard [] b = refl
  close_guard (k ∷ done) b = ground (arith, close_guard done (close_filled venue k b))

  recover_row_guard : (n : Option String) (row : OrderRow) → KeepsGuard (recover_row venue n row)
  unfolding recover_row now orphaned readmit
  recover_row_guard none row b = refl
  recover_row_guard (some k) row b =
      KeepsGuard-bind (modify (readmit k row))
        (λ _. poll_once venue k >>= λ is_done. pure ((if is_done then k ∷ [] else []), []))
        (λ b. refl)
        (λ _.
          KeepsGuard-bind (poll_once venue k)
            (λ is_done. pure ((if is_done then k ∷ [] else []), [])) (poll_once_guard k)
            (λ is_done b. refl))
        b

  recover_rows_guard : (rows : List OrderRow) → KeepsGuard (recover_rows venue rows)
  unfolding recover_rows
  recover_rows_guard [] b = refl
  recover_rows_guard (row ∷ rows) b =
      KeepsGuard-bind (recover_row venue row.order_no row)
        (λ this. recover_rows venue rows >>= λ rest. pure (this.0 ++ rest.0, this.1 ++ rest.1))
        (recover_row_guard row.order_no row)
        (λ this.
          KeepsGuard-bind (recover_rows venue rows)
            (λ rest. pure (this.0 ++ rest.0, this.1 ++ rest.1)) (recover_rows_guard rows)
            (λ rest b. refl))
        b

  recover_guard : KeepsGuard (recover_open_orders venue)
  unfolding recover_open_orders drain_fill_buffer
  recover_guard =
      KeepsGuard-bind (λ b. recover_rows venue (get_open_orders b.ledger) b)
        (λ found. do
          drain_fill_buffer venue
          modify (close_all found.0 (close_filled venue))
          pure found)
        (λ b. recover_rows_guard (get_open_orders b.ledger) b)
        (λ found.
          KeepsGuard-bind (drain_fill_buffer venue)
            (λ n. do modify (close_all found.0 (close_filled venue)); pure found)
            (λ b. book_fills_guard b.fill_buffer (record b { fill_buffer = [] }))
            (λ n b. close_guard found.0 b))

  seed_guard : KeepsGuard (seed_from_venue venue)
  unfolding seed_from_venue
  seed_guard b =
      KeepsGuard-bind (ask venue.get_balance)
        (λ balance. on_portfolio b.account_id (seed_portfolio b.current_dt balance)) (λ b. refl)
        (λ balance. on_portfolio_guard b.account_id (seed_portfolio b.current_dt balance)) b

-- The guard after a reconciliation: halted by its findings, if that is wanted and it returned.
abbrev pub guard_after : {F : Floats} → Bool → Result Findings → SafetyGuard F → SafetyGuard F
unfolding halt
guard_after wanted (err e) g = g
guard_after wanted (ok r) g =
    if wanted && halt_trading r
    then halt "Reconciliation found the engine holding more than the venue reports." g
    else g

module _ {F : Floats} {W : Type 0} (wanted : Bool) where
  abbrev EndsWell : Method (Broker F W) Findings → Type 0
  EndsWell m = (b : Broker F W) → (m b).1.guard ≡ guard_after wanted (m b).0 b.guard

  EndsWell-continue :
      {A : Type 0} (f : A → Method (Broker F W) Findings) (out : Result A × Broker F W)
      → ((a : A) → EndsWell (f a))
      → (continue f out).1.guard ≡ guard_after wanted (continue f out).0 out.1.guard
  unfolding guard_after
  EndsWell-continue f (ok a, b) h = h a b
  EndsWell-continue f (err e, b) h = refl

  EndsWell-bind :
      {A : Type 0} (m : Method (Broker F W) A) (f : A → Method (Broker F W) Findings)
      → KeepsGuard m
      → ((a : A) → EndsWell (f a))
      → EndsWell (m >>= f)
  EndsWell-bind m f h k b =
      EndsWell-continue f (m b) k ∙ ap (λ g. guard_after wanted (continue f (m b)).0 g) (h b)

  conclude-EndsWell : (r : Findings) → EndsWell (conclude wanted r)
  unfolding guard_after conclude halt_on set_trading_halted halt
  conclude-EndsWell r b = ground arith

module _ {F : Floats} {W : Type 0} (venue : Venue F W) where
  -- A reconciliation halts the session exactly when it returns findings that ask for it and halting
  -- is wanted. In every other case, an exception included, the guard is as before.
  pub reconcile_guard :
      (wanted : Bool) (b : Broker F W)
      → (reconcile venue wanted b).1.guard ≡ guard_after wanted (reconcile venue wanted b).0 b.guard
  unfolding reconcile
  reconcile_guard wanted =
      EndsWell-bind wanted (recover_open_orders venue) then_believe (recover_guard venue) (λ found.
        EndsWell-bind wanted holdings_of (then_seed found) holdings_guard (λ believed.
          EndsWell-bind wanted (seed_from_venue venue) (λ _. then_report found believed)
            (seed_guard venue)
            (λ _.
              EndsWell-bind wanted holdings_of (then_conclude found believed) holdings_guard
                (λ reported. conclude-EndsWell wanted (findings_of found believed reported)))))
    where
      then_conclude :
          List String × List String
          → Dict (HoldingRow F)
          → Dict (HoldingRow F)
          → Method (Broker F W) Findings
      then_conclude found believed reported = conclude wanted (findings_of found believed reported)

      then_report : List String × List String → Dict (HoldingRow F) → Method (Broker F W) Findings
      then_report found believed = holdings_of >>= then_conclude found believed

      then_seed : List String × List String → Dict (HoldingRow F) → Method (Broker F W) Findings
      then_seed found believed = seed_from_venue venue >> then_report found believed

      then_believe : List String × List String → Method (Broker F W) Findings
      then_believe found = holdings_of >>= then_seed found
