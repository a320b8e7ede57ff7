-- ===== src/Live/Settle/Fuel.antt =====
-- Settlement ends: with a clock that runs, the deadline bounds the rounds of its loop.
use vm_quant_trader.Prelude.{
  ℕ, zero, suc, ◌+◌, ◌≤◌, ◌<◌, ◌≡◌, refl, String, Bool, true, false, List, [], ◌∷◌, arith, leb, ltb,
  if◌then◌else◌, Option-cases, inl, inr,
}
use vm_quant_trader.Errors.{Result, ok, err, continue}
use vm_quant_trader.Floats.{Floats}
use vm_quant_trader.Dict.{get, keys}
use vm_quant_trader.Live.Client.{Venue, OrderReport}
use vm_quant_trader.Live.Guards.{is_kill_switch_engaged}
use vm_quant_trader.Live.Broker.{Broker, OpenOrder, Fill, now, on_portfolio}
use vm_quant_trader.Live.Collect.{
  ledger_fill, hand_over, booked_of, charged_of, take_report, poll_once, book_increment, book_fill,
  book_fills, drain_fill_buffer, close_order,
}
use vm_quant_trader.Live.Collect.Poll.{poll_known, poll_unknown}
use vm_quant_trader.Live.Settle.{
  Ending, all_closed, expired, stopped_by_operator, out_of_fuel, is_empty, poll_tasks, close_all,
  close_filled, polled, after_drain, settle_round, Next, ends, goes_on, after_round, settle_step,
  settle_loop,
}

-- A clock that runs: it shows the time of the world, each reading takes some, and nothing else
-- that settlement asks of the world turns it back.
pub record IsRunning {F : Floats} {W : Type 0} (venue : Venue F W) (time : W → ℕ) : Type 0 where
  pub reads : (w : W) → (venue.clock w).0 ≡ time w
  pub ticks : (w : W) → time w < time (venue.clock w).1
  pub reports : (k : String) (w : W) → time w ≤ time (venue.get_order_report k w).1
  pub sleeps : (w : W) → time w ≤ time (venue.sleep w)

abbrev pub is_out_of_fuel : Ending → Bool
is_out_of_fuel out_of_fuel = true
is_out_of_fuel _ = false

-- What an iteration at a time before the deadline comes to.
abbrev Progress : {F : Floats} {W : Type 0} → (W → ℕ) → ℕ → ℕ → Next F W → Type 0
Progress time deadline t (ends ending b) = is_out_of_fuel ending ≡ false
Progress time deadline t (goes_on n b) = (t < deadline) × (t < time b.world)

chosen_Progress :
    {F : Floats} {W : Type 0} (time : W → ℕ) (deadline t : ℕ) (c : Bool) (n m : Next F W)
    → Progress time deadline t n
    → (c ≡ false → Progress time deadline t m)
    → Progress time deadline t (if c then n else m)
chosen_Progress time deadline t true n m v v' = v
chosen_Progress time deadline t false n m v v' = v' refl

module _ {F : Floats} {W : Type 0} (venue : Venue F W) (time : W → ℕ)
    (running : IsRunning venue time) where
  take_report_later :
      (k : String) (s : OpenOrder F) (report : OrderReport F) (b : Broker F W)
      → time b.world ≤ time (take_report venue k s report b).1.world
  unfolding take_report now ledger_fill hand_over
  take_report_later k s report b = ground (arith, running.ticks b.world)

  answer_later :
      (k : String) (s : OpenOrder F) (b : Broker F W) (r : Result (OrderReport F)) (w : W)
      → time w ≤ time (continue (take_report venue k s) (r, record b { world = w })).1.world
  answer_later k s b (ok report) w = take_report_later k s report (record b { world = w })
  answer_later k s b (err e) w = ground arith

  poll_once_later :
      (k : String) (b : Broker F W) → time b.world ≤ time (poll_once venue k b).1.world
  poll_once_later k b = elim (Option-cases (get b.open_orders k)) [
    | inl e ↦ rw (poll_unknown venue k b e) (ground arith)
    | inr (s, e) ↦
        let (r, w) = venue.get_order_report k b.world in
        rw (poll_known venue k s b e)
          (ground (arith, running.reports k b.world, answer_later k s b r w))
  ]

  poll_tasks_later :
      (posted : List String) (b : Broker F W)
      → time b.world ≤ time (poll_tasks venue posted b).1.world
  unfolding poll_tasks
  poll_tasks_later [] b = ground arith
  poll_tasks_later (k ∷ posted) b =
      let b1 = (poll_once venue k b).1 in
      ground (arith, poll_once_later k b, poll_tasks_later posted b1)

  book_increment_later :
      (f : Fill F) (already : ℕ) (charged : F.Num) (b : Broker F W)
      → time b.world ≤ time (book_increment venue f already charged b).1.world
  unfolding book_increment now on_portfolio
  book_increment_later f already charged b = ground (arith, running.ticks b.world)

  book_fill_later :
      (f : Fill F) (b : Broker F W) → time b.world ≤ time (book_fill venue f b).1.world
  unfolding book_fill
  book_fill_later f b =
      ground (arith, book_increment_later f (booked_of b f.order_no) (charged_of b f.order_no) b)

  book_fills_later :
      (fs : List (Fill F)) (b : Broker F W) → time b.world ≤ time (book_fills venue fs b).1.world
  unfolding book_fills
  book_fills_later [] b = ground arith
  book_fills_later (f ∷ fs) b =
      let b1 = (book_fill venue f b).1 in
      ground (arith, book_fill_later f b, book_fills_later fs b1)

  close_later :
      (done : List String) (b : Broker F W)
      → time b.world ≤ time (close_all done (close_filled venue) b).world
  unfolding close_all close_filled close_order
  close_later [] b = ground arith
  close_later (k ∷ done) b =
      ground (arith, running.ticks b.world, close_later done (close_filled venue k b))

  after_drain_later :
      (done : List String) (out : Result ℕ × Broker F W)
      → time out.1.world ≤ time (after_drain venue done out).1.world
  unfolding after_drain
  after_drain_later done (ok n, b) = close_later done b
  after_drain_later done (err e, b) = ground arith

  settle_round_later : (b : Broker F W) → time b.world < time (settle_round venue b).1.world
  unfolding settle_round polled now drain_fill_buffer
  settle_round_later b =
      let (done, b1) = polled venue b in
      ground (
        arith,
        running.ticks b.world,
        poll_tasks_later (keys b.open_orders) (now venue b).1,
        book_fills_later b1.fill_buffer (record b1 { fill_buffer = [] }),
        after_drain_later done (drain_fill_buffer venue b1),
      )

  after_round-Progress :
      (deadline t : ℕ) (out : Result ℕ × Broker F W)
      → t < deadline
      → t < time out.1.world
      → Progress time deadline t (after_round venue out)
  after_round-Progress deadline t (ok n, b) h h' = (h, ground (arith, h', running.sleeps b.world))
  after_round-Progress deadline t (err e, b) h h' = refl

  settle_step-Progress :
      (deadline : ℕ) (b : Broker F W)
      → Progress time deadline (time b.world) (settle_step venue deadline b)
  unfolding settle_step
  settle_step-Progress deadline b =
      let (t, w) = venue.clock b.world in
      let b1 : Broker F W = record b { world = w } in
      chosen_Progress time deadline (time b.world) (is_empty b.open_orders) (ends all_closed b) _
        refl
        (λ h.
          chosen_Progress time deadline (time b.world)
            (leb deadline (if ltb t b.current_dt then b.current_dt else t)) (ends expired b1) _ refl
            (λ early.
              chosen_Progress time deadline (time b.world)
                (is_kill_switch_engaged (venue.path_exists w) b.guard) (ends stopped_by_operator b1)
                (after_round venue (settle_round venue b1)) refl
                (λ g.
                  after_round-Progress deadline (time b.world) (settle_round venue b1)
                    (ground (arith, early, running.reads b.world))
                    (ground (arith, running.ticks b.world, settle_round_later b1)))))

  -- With more fuel than there is time to the deadline, and a clock that runs, the loop of
  -- settlement does not run out of fuel: it ends because nothing is open, at the deadline, at the
  -- kill switch or at an exception.
  pub settle_loop_ends :
      (fuel deadline n : ℕ) (b : Broker F W)
      → 0 < fuel
      → deadline < fuel + time b.world
      → is_out_of_fuel (settle_loop venue fuel deadline n b).0 ≡ false
  unfolding settle_loop
  settle_loop_ends zero deadline n b positive enough = ground (arith, positive)
  settle_loop_ends (suc fuel) deadline n b positive enough =
      by_next (settle_step venue deadline b) (settle_step-Progress deadline b)
        (λ m b' h h'. settle_loop_ends fuel deadline (n + m) b' h h')
    where
      by_next :
          (next : Next F W)
          → Progress time deadline (time b.world) next
          → ((m : ℕ) (b' : Broker F W)
              → 0 < fuel
              → deadline < fuel + time b'.world
              → is_out_of_fuel (settle_loop venue fuel deadline (n + m) b').0 ≡ false)
          → is_out_of_fuel
              (elim next as (λ x. Ending × ℕ × Broker F W) [
                | ends ending b' ↦ (ending, n, b')
                | goes_on m b' ↦ settle_loop venue fuel deadline (n + m) b'
              ]).0
            ≡ false
      by_next (ends ending b') h ih = h
      by_next (goes_on m b') (early, later) ih =
          ih m b' (ground (arith, early, enough)) (ground (arith, later, enough))
