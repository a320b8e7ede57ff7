-- ===== src/Live/Settle.antt =====
-- Settlement (vmtrader/broker/live_broker.py, `settle` and `_poll_task`). The thread that books
-- waits for every poll of a round before it books, so a round is its polls in order and then the
-- booking; the clock that the heartbeat reads is read before the polls. The worker reports an
-- exception of a poll and goes on. The loop runs on fuel; running out is an ending of its own.
pub mod Listed
pub mod Rounds
pub mod Endings
pub mod Fuel
mod Tests
use vm_quant_trader.Prelude.{
  ℕ, ◌+◌, String, Bool, true, false, Option, none, some, List, [], ◌∷◌, leb, ltb, zero, suc,
  if◌then◌else◌,
}
use vm_quant_trader.Errors.{Method, Result, ok, err, Exc}
use vm_quant_trader.Floats.{Floats}
use vm_quant_trader.Dict.{Dict, keys}
use vm_quant_trader.Live.Guards.{is_kill_switch_engaged}
use vm_quant_trader.Live.Ledger.{filled, stale, Note, text}
use vm_quant_trader.Live.Client.{Venue}
use vm_quant_trader.Live.Broker.{Broker, OpenOrder, now}
use vm_quant_trader.Live.Collect.{poll_once, drain_fill_buffer, close_order}

-- Why the loop ended.
pub data Ending : Type 0 where
  all_closed : Ending
  expired : Ending
  stopped_by_operator : Ending
  raised : Exc → Ending
  out_of_fuel : Ending

-- After an iteration: the loop ends, or goes on with so many more fills booked.
pub data Next (F : Floats) (W : Type 0) : Type 0 where
  ends : Ending → Broker F W → Next F W
  goes_on : ℕ → Broker F W → Next F W

abbrev pub is_empty {ℓ} : {A : Type ℓ} → List A → Bool
is_empty [] = true
is_empty (a ∷ l) = false

-- `if self._poll_once(…): done.append(order_no)`, at an order that was polled
abbrev pub note_done : String → Result Bool → List String → List String
note_done order_no (ok true) done = order_no ∷ done
note_done order_no _ done = done

module _ {F : Floats} {W : Type 0} where
  unfoldable pub close_all :
      List String → (String → Broker F W → Broker F W) → Broker F W → Broker F W
  close_all [] close b = b
  close_all (order_no ∷ rest) close b = close_all rest close (close order_no b)

module _ {F : Floats} {W : Type 0} (venue : Venue F W) where
  -- The tasks of a round: the orders that are done, in the order of their polls
  unfoldable pub poll_tasks : List String → Broker F W → List String × Broker F W
  unfolding poll_once
  poll_tasks [] b = ([], b)
  poll_tasks (order_no ∷ posted) b =
      let (r, b1) = poll_once venue order_no b in
      let (done, b2) = poll_tasks posted b1 in (note_done order_no r done, b2)

  unfoldable pub close_filled : String → Broker F W → Broker F W
  unfolding close_order
  close_filled order_no = close_order venue order_no filled none

  unfoldable pub close_stale : String → Broker F W → Broker F W
  unfolding close_order
  close_stale order_no =
      close_order venue order_no stale (some (text "Unfilled when the time budget expired."))

  -- The polls of a round, after the heartbeat's reading of the clock.
  abbrev pub polled : Broker F W → List String × Broker F W
  unfolding now poll_tasks keys
  polled b = poll_tasks (keys b.open_orders) (now venue b).1

  abbrev pub after_drain : List String → Result ℕ × Broker F W → Result ℕ × Broker F W
  unfolding close_all close_filled
  after_drain done (ok n, b) = (ok n, close_all done close_filled b)
  after_drain done (err e, b) = (err e, b)

  -- One round: how many fills it booked
  unfoldable pub settle_round : Method (Broker F W) ℕ
  unfolding drain_fill_buffer polled after_drain
  settle_round b = let (done, b1) = polled b in after_drain done (drain_fill_buffer venue b1)

  -- `if self.open_orders: sleeper(poll_interval)`
  abbrev pub rest_a_while : Broker F W → Broker F W
  rest_a_while b = if is_empty b.open_orders then b else record b { world = venue.sleep b.world }

  abbrev pub after_round : Result ℕ × Broker F W → Next F W
  after_round (ok n, b) = goes_on n (rest_a_while b)
  after_round (err e, b) = ends (raised e) b

  -- The body of the loop, with its guards.
  unfoldable pub settle_step : ℕ → Broker F W → Next F W
  unfolding now is_kill_switch_engaged settle_round
  settle_step deadline b =
      let (t, w) = venue.clock b.world in
      let b1 : Broker F W = record b { world = w } in
      if is_empty b.open_orders
      then ends all_closed b
      else if leb deadline (if ltb t b.current_dt then b.current_dt else t)
      then ends expired b1
      else if is_kill_switch_engaged (venue.path_exists w) b.guard
      then ends stopped_by_operator b1
      else after_round (settle_round b1)

  -- The loop: why it ended, and how many fills it booked
  unfoldable pub settle_loop : ℕ → ℕ → ℕ → Broker F W → Ending × ℕ × Broker F W
  unfolding settle_step
  settle_loop zero deadline booked b = (out_of_fuel, booked, b)
  settle_loop (suc fuel) deadline booked b = elim (settle_step deadline b) [
    | ends ending b' ↦ (ending, booked, b')
    | goes_on n b' ↦ settle_loop fuel deadline (booked + n) b'
  ]

  -- What follows the loop and the last drain, by the loop's ending.
  unfoldable pub finish : Ending → ℕ → Broker F W → Result ℕ × Broker F W
  unfolding close_all close_stale keys
  finish stopped_by_operator booked b = (ok booked, b)
  finish (raised e) booked b = (err e, b)
  finish _ booked b = (ok booked, close_all (keys b.open_orders) close_stale b)

  abbrev pub after_last_drain : Ending → ℕ → Result ℕ × Broker F W → Result ℕ × Broker F W
  unfolding finish
  after_last_drain ending booked (ok n, b) = finish ending (booked + n) b
  after_last_drain ending booked (err e, b) = (err e, b)

  -- `settle(deadline)`
  unfoldable pub settle : ℕ → ℕ → Method (Broker F W) ℕ
  unfolding settle_loop drain_fill_buffer after_last_drain
  settle fuel deadline b =
      let (ending, booked, b1) = settle_loop fuel deadline 0 b in
      after_last_drain ending booked (drain_fill_buffer venue b1)
