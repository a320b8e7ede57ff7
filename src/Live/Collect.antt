-- ===== src/Live/Collect.antt =====
-- Collecting fills (vmtrader/broker/live_broker.py): the poll of one order, the booking of what was
-- polled, and closing. The worker polls while the thread that books waits for it, so a round is the
-- polls in their order and then the booking. A ledger is always given to the poll.
pub mod Watermark
pub mod Shares
pub mod Holdings
pub mod Returns
pub mod Poll
mod Tests
use vm_quant_trader.Prelude.{
  ℕ, ◌+◌, ◌-◌, String, Bool, true, false, Option, none, some, List, [], ◌∷◌, ◌++◌, ltb, leb,
  if◌then◌else◌,
}
use vm_quant_trader.Prelude.Int.{ℤ, pos, negsuc, ◌*ℤ◌, ltb_ℤ}
use vm_quant_trader.Errors.{Method, Result, ok, err, pure, modify, ◌>>=◌, ◌>>◌}
use vm_quant_trader.Floats.{Floats, zero_num}
use vm_quant_trader.Dict.{get, get_or, put, remove}
use vm_quant_trader.Transaction.{Transaction}
use vm_quant_trader.Portfolio.{transact_asset}
use vm_quant_trader.Live.Ledger.{State, Note, record_fill, record_state}
use vm_quant_trader.Live.Client.{Venue, OrderReport}
use vm_quant_trader.Live.Broker.{Broker, OpenOrder, Fill, ask, now, on_portfolio}

abbrev pub direction_of : ℤ → ℤ
direction_of quantity = if ltb_ℤ (pos 0) quantity then pos 1 else negsuc 0

module _ {F : Floats} where
  abbrev pub new_fill : String → OpenOrder F → OrderReport F → Fill F
  new_fill order_no s report = record {
    order_no = order_no;
    order_id = s.order_id;
    portfolio_id = s.portfolio_id;
    symbol = s.symbol;
    direction = direction_of s.quantity;
    price = report.average_price;
    cumulative_fees = report.fees;
    cumulative_filled = report.filled_quantity;
  }

  -- The transaction of what the portfolio does not have yet.
  unfoldable pub increment_txn : Fill F → ℕ → F.Num → ℕ → Transaction F
  unfolding ◌*ℤ◌
  increment_txn f already charged dt = record {
    asset = f.symbol;
    quantity = f.direction *ℤ pos (f.cumulative_filled - already);
    dt = dt;
    price = f.price;
    order_id = f.order_id;
    commission = F.sub f.cumulative_fees charged;
  }

module _ {F : Floats} {W : Type 0} where
  unfoldable pub ledger_fill : String → OpenOrder F → OrderReport F → ℕ → Broker F W → Broker F W
  unfolding record_fill ◌*ℤ◌
  ledger_fill order_no s report dt b = record b {
    ledger =
        (record_fill s.order_id order_no report.filled_quantity
          (direction_of s.quantity *ℤ pos (report.filled_quantity - s.booked_quantity))
          report.average_price (F.sub report.fees s.booked_fees) dt none b.ledger).1;
  }

  -- Hand a fill over, and move the poller's own watermark.
  unfoldable pub hand_over : String → OpenOrder F → OrderReport F → Broker F W → Broker F W
  unfolding put
  hand_over order_no s report b = record b {
    fill_buffer = b.fill_buffer ++ new_fill order_no s report ∷ [];
    open_orders =
        put b.open_orders order_no
          (record s { booked_quantity = report.filled_quantity; booked_fees = report.fees });
  }

  -- What the portfolio has of an order.
  unfoldable pub booked_of : Broker F W → String → ℕ
  unfolding get_or
  booked_of b order_no = get_or b.portfolio_booked order_no 0

  unfoldable pub charged_of : Broker F W → String → F.Num
  unfolding get_or
  charged_of b order_no = get_or b.portfolio_charged order_no (zero_num F)

  -- Move the watermarks, after the portfolio took the transaction.
  unfoldable pub mark_booked : Fill F → Broker F W → Broker F W
  unfolding put
  mark_booked f b = record b {
    portfolio_booked = put b.portfolio_booked f.order_no f.cumulative_filled;
    portfolio_charged = put b.portfolio_charged f.order_no f.cumulative_fees;
  }

  abbrev pub advance_to : ℕ → Broker F W → Broker F W
  advance_to dt b = record b { current_dt = dt }

module _ {F : Floats} {W : Type 0} (venue : Venue F W) where
  -- What a poll does with the venue's report.
  unfoldable pub take_report : String → OpenOrder F → OrderReport F → Method (Broker F W) Bool
  unfolding now ledger_fill hand_over
  take_report order_no s report =
      if ltb s.booked_quantity report.filled_quantity
      then (do
        dt ← now venue
        modify (ledger_fill order_no s report dt)
        modify (hand_over order_no s report)
        pure report.is_done)
      else pure report.is_done

  -- `_poll_once(order_no, ledger)`: whether the order has reached its end
  unfoldable pub poll_once : String → Method (Broker F W) Bool
  unfolding get take_report
  poll_once order_no b = elim (get b.open_orders order_no) [
    | none ↦ (ok true, b)
    | some s ↦ (do report ← ask (venue.get_order_report order_no); take_report order_no s report) b
  ]

  -- Book one fill that the portfolio does not have in full.
  unfoldable pub book_increment : Fill F → ℕ → F.Num → Method (Broker F W) ℕ
  unfolding now on_portfolio transact_asset mark_booked increment_txn
  book_increment f already charged = do
    dt ← now venue
    modify (advance_to dt)
    on_portfolio f.portfolio_id (transact_asset (increment_txn f already charged dt))
    modify (mark_booked f)
    pure 1

  -- One round of the loop of `_drain_fill_buffer`: how many fills it booked
  unfoldable pub book_fill : Fill F → Method (Broker F W) ℕ
  unfolding booked_of charged_of book_increment
  book_fill f b =
      if leb f.cumulative_filled (booked_of b f.order_no)
      then (ok 0, b)
      else book_increment f (booked_of b f.order_no) (charged_of b f.order_no) b

  unfoldable pub book_fills : List (Fill F) → Method (Broker F W) ℕ
  unfolding book_fill
  book_fills [] = pure 0
  book_fills (f ∷ pending) = do n ← book_fill f; m ← book_fills pending; pure (n + m)

  -- `_drain_fill_buffer()`: an exception loses the rest of what was pending.
  unfoldable pub drain_fill_buffer : Method (Broker F W) ℕ
  unfolding book_fills
  drain_fill_buffer b = book_fills b.fill_buffer (record b { fill_buffer = [] })

  -- `_close_order(order_no, state, note)`
  unfoldable pub close_order : String → State → Option Note → Broker F W → Broker F W
  unfolding get remove now record_state
  close_order order_no end_state reason b = elim (get b.open_orders order_no) [
    | none ↦ b
    | some s ↦
        let (t, w) = venue.clock b.world in
        record b {
          open_orders = remove b.open_orders order_no;
          world = w;
          ledger =
              record_state s.order_id end_state (if ltb t b.current_dt then b.current_dt else t)
                reason b.ledger;
        }
  ]
