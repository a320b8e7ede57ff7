-- ===== src/Live/Session/Clock.antt =====
-- The clock of the broker, under `update`: it never goes back, and the throttle stops everything
-- else.
use vm_quant_trader.Prelude.{
  ℕ, ◌≤◌, String, Bool, true, Option, none, some, List, [], ◌∷◌, arith, ltb, if◌then◌else◌,
  Bool-cases, inl, inr,
}
use vm_quant_trader.Errors.{Result, ok, err, Method, pure, modify, ◌>>=◌, ◌>>◌}
use vm_quant_trader.Errors.Frame.{IsFrame, Respects, Respects-bind}
use vm_quant_trader.Floats.{Floats}
use vm_quant_trader.Dict.{get, keys}
use vm_quant_trader.Live.Client.{Venue, OrderReport}
use vm_quant_trader.Live.Broker.{Broker, OpenOrder, Fill, ask, now, on_portfolio}
use vm_quant_trader.Live.Collect.{
  ledger_fill, hand_over, booked_of, charged_of, take_report, poll_once, book_increment, book_fill,
  book_fills, drain_fill_buffer, close_order,
}
use vm_quant_trader.Live.Settle.{is_empty, close_all, close_filled}
use vm_quant_trader.Live.Session.{
  symbols_of, revalue, mark_symbols, mark_portfolios, mark_to_market, poll_open, collect, update,
}

module _ {F : Floats} {W : Type 0} where
  abbrev NotBefore : Broker F W → Broker F W → Type 0
  NotBefore b b' = b.current_dt ≤ b'.current_dt

  clock_frame : IsFrame NotBefore
  clock_frame = record { same = λ b. omega arith; next = λ b c d h k. omega arith }

  -- Whatever comes of a method, the clock of its broker does not go back.
  abbrev GoesForward : {A : Type 0} → Method (Broker F W) A → Type 0
  GoesForward m = Respects NotBefore m

  GoesForward-bind :
      {A B : Type 0} (m : Method (Broker F W) A) (f : A → Method (Broker F W) B)
      → GoesForward m
      → ((a : A) → GoesForward (f a))
      → GoesForward (m >>= f)
  GoesForward-bind m f h k = Respects-bind NotBefore clock_frame m f h k

  revalue_forward :
      (id symbol : String) (dt : ℕ) (out : Result F.Num × Broker F W)
      → out.1.current_dt ≤ (revalue id symbol dt out).1.current_dt
  unfolding revalue on_portfolio
  revalue_forward id symbol dt (ok price, b) = ground arith
  revalue_forward id symbol dt (err e, b) = omega arith

module _ {F : Floats} {W : Type 0} (venue : Venue F W) where
  take_report_forward :
      (k : String) (s : OpenOrder F) (report : OrderReport F)
      → GoesForward (take_report venue k s report)
  unfolding take_report now ledger_fill hand_over
  take_report_forward k s report b = ground arith

  poll_once_forward : (k : String) → GoesForward (poll_once venue k)
  unfolding poll_once
  poll_once_forward k b = by_found (get b.open_orders k)
    where
      by_found :
          (found : Option (OpenOrder F))
          → b.current_dt
            ≤ (elim found as (λ x. Result Bool × Broker F W) [
              | none ↦ (ok true, b)
              | some s ↦
                  (do report ← ask (venue.get_order_report k); take_report venue k s report) b
            ]).1.current_dt
      by_found none = omega arith
      by_found (some s) =
          GoesForward-bind (ask (venue.get_order_report k)) (take_report venue k s)
            (λ b. omega arith) (take_report_forward k s) b

  book_increment_forward :
      (f : Fill F) (already : ℕ) (charged : F.Num)
      → GoesForward (book_increment venue f already charged)
  unfolding book_increment now on_portfolio
  book_increment_forward f already charged b = ground arith

  book_fill_forward : (f : Fill F) → GoesForward (book_fill venue f)
  unfolding book_fill
  book_fill_forward f b =
      ground (arith, book_increment_forward f (booked_of b f.order_no) (charged_of b f.order_no) b)

  book_fills_forward : (fs : List (Fill F)) → GoesForward (book_fills venue fs)
  unfolding book_fills
  book_fills_forward [] b = omega arith
  book_fills_forward (f ∷ fs) b =
      ground (arith, book_fill_forward f b, book_fills_forward fs (book_fill venue f b).1)

  poll_open_forward : (ks : List String) → GoesForward (poll_open venue ks)
  unfolding poll_open
  poll_open_forward [] b = omega arith
  poll_open_forward (k ∷ ks) b =
      GoesForward-bind (poll_once venue k)
        (λ is_done. do done ← poll_open venue ks; pure (if is_done then k ∷ done else done))
        (poll_once_forward k)
        (λ is_done.
          GoesForward-bind (poll_open venue ks) (λ done. pure (if is_done then k ∷ done else done))
            (poll_open_forward ks) (λ done b. omega arith))
        b

  close_forward :
      (done : List String) (b : Broker F W)
      → b.current_dt ≤ (close_all done (close_filled venue) b).current_dt
  unfolding close_all close_filled close_order
  close_forward [] b = omega arith
  close_forward (k ∷ done) b = ground (arith, close_forward done (close_filled venue k b))

  collect_forward : GoesForward (collect venue)
  unfolding collect drain_fill_buffer
  collect_forward b = elim (Bool-cases (is_empty b.open_orders)) [
    | inl nothing ↦ rw nothing (omega arith)
    | inr something ↦ rw something (
        GoesForward-bind (poll_open venue (keys b.open_orders))
          (λ done. drain_fill_buffer venue >> modify (close_all done (close_filled venue)))
          (poll_open_forward (keys b.open_orders))
          (λ done.
            GoesForward-bind (drain_fill_buffer venue)
              (λ n. modify (close_all done (close_filled venue)))
              (λ b. book_fills_forward b.fill_buffer (record b { fill_buffer = [] }))
              (λ n b. close_forward done b))
          b)
  ]

  mark_symbols_forward :
      (id : String) (dt : ℕ) (ks : List String) → GoesForward (mark_symbols venue id dt ks)
  unfolding mark_symbols
  mark_symbols_forward id dt [] b = omega arith
  mark_symbols_forward id dt (k ∷ ks) b =
      GoesForward-bind (λ b. revalue id k dt (ask (venue.get_asset_latest_mid_price dt k) b))
        (λ _. mark_symbols venue id dt ks)
        (λ b. revalue_forward id k dt (ask (venue.get_asset_latest_mid_price dt k) b))
        (λ _. mark_symbols_forward id dt ks) b

  mark_portfolios_forward :
      (dt : ℕ) (ids : List String) → GoesForward (mark_portfolios venue dt ids)
  unfolding mark_portfolios
  mark_portfolios_forward dt [] b = omega arith
  mark_portfolios_forward dt (id ∷ ids) b =
      GoesForward-bind (λ b. mark_symbols venue id dt (symbols_of (get b.portfolios id)) b)
        (λ _. mark_portfolios venue dt ids)
        (λ b. mark_symbols_forward id dt (symbols_of (get b.portfolios id)) b)
        (λ _. mark_portfolios_forward dt ids) b

  mark_to_market_forward : GoesForward (mark_to_market venue)
  unfolding mark_to_market now
  mark_to_market_forward b =
      let w = venue.clear_cache b.world in
      let (t, w') = venue.clock w in
      let dt = if ltb t b.current_dt then b.current_dt else t in
      let b' : Broker F W = record b { current_dt = dt; world = w' } in
      ground (arith, mark_portfolios_forward dt (keys b.portfolios) b')

  -- An update takes the broker to the timestamp it is called with, unless the broker is ahead of
  -- it, and never back, whatever the venue answers and whatever raises.
  pub update_clock :
      (dt : ℕ) (force : Bool) (b : Broker F W)
      → let b' = (update venue dt force b).1 in
        (b.current_dt ≤ b'.current_dt) × (dt ≤ b'.current_dt)
  unfolding update
  update_clock dt force b =
      let b1 : Broker F W = if ltb b.current_dt dt then record b { current_dt = dt } else b in
      let reached : (b.current_dt ≤ b1.current_dt) × (dt ≤ b1.current_dt) = ground arith in
      let forward =
        GoesForward-bind (collect venue) (λ _. mark_to_market venue) collect_forward
          (λ _. mark_to_market_forward) (record b1 { last_poll_dt = dt }) in
      ground (arith, reached, forward)
