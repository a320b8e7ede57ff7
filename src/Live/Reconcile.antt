-- ===== src/Live/Reconcile.antt =====
-- Reconciliation at launch (vmtrader/broker/live/reconcile.py): the orders that the ledger left
-- open, and the holdings against the venue's.
pub mod Halt
pub mod Mismatch
pub mod Booked
pub mod Accounted
mod Tests
use vm_quant_trader.Prelude.{
  ℕ, ◌+◌, String, Bool, true, false, not, ◌||◌, Option, none, some, List, [], ◌∷◌, ◌++◌, ◌&&◌,
  if◌then◌else◌,
}
use vm_quant_trader.Prelude.Int.{ℤ, pos, abs, ltb_ℤ}
use vm_quant_trader.Errors.{Method, Result, ok, err, pure, modify, ◌>>=◌, ◌>>◌}
use vm_quant_trader.Floats.{Floats, zero_num}
use vm_quant_trader.Dict.{Dict, get_or, contains, put}
use vm_quant_trader.Portfolio.{HoldingRow}
use vm_quant_trader.Live.Ledger.{
  OrderLedger, OrderRow, FillRow, rejected, Note, text, record_state, get_fills, get_open_orders,
}
use vm_quant_trader.Live.Client.{Venue}
use vm_quant_trader.Live.Broker.{
  Broker, OpenOrder, now, get_portfolio_as_dict, seed_from_venue, set_trading_halted,
}
use vm_quant_trader.Live.Collect.{poll_once, drain_fill_buffer}
use vm_quant_trader.Live.Settle.{is_empty, close_all, close_filled}

-- `ReconcileResult`
pub record Findings : Type 0 where
  pub resolved_orders : List String
  pub orphan_intents : List String
  pub overstated : Dict (ℤ × ℤ)
  pub untracked : Dict ℤ

abbrev pub halt_trading : Findings → Bool
halt_trading r = not (is_empty r.overstated) || not (is_empty r.orphan_intents)

-- The symbols of which the engine believes to hold more than the venue reports.
unfoldable pub overstatements : Dict ℤ → Dict ℤ → Dict (ℤ × ℤ)
unfolding get_or
overstatements [] reported = []
overstatements ((symbol, quantity) ∷ believed) reported =
    let held = get_or reported symbol (pos 0) in
    let rest = overstatements believed reported in
    if ltb_ℤ held quantity then (symbol, (quantity, held)) ∷ rest else rest

-- The symbols that the engine does not hold.
unfoldable pub untracked_in : Dict ℤ → Dict ℤ → Dict ℤ
unfolding contains
untracked_in believed [] = []
untracked_in believed ((symbol, quantity) ∷ reported) =
    let rest = untracked_in believed reported in
    if contains believed symbol then rest else (symbol, quantity) ∷ rest

abbrev pub sum_booked : {F : Floats} → List (FillRow F) → ℕ
sum_booked [] = 0
sum_booked (row ∷ rows) = abs row.quantity + sum_booked rows

abbrev pub sum_fees : {F : Floats} → List (FillRow F) → F.Num → F.Num
sum_fees [] acc = acc
sum_fees {F} (row ∷ rows) acc = sum_fees rows (F.add acc row.fees)

module _ {F : Floats} where
  abbrev pub quantities : Dict (HoldingRow F) → Dict ℤ
  quantities [] = []
  quantities ((symbol, row) ∷ d) = (symbol, row.quantity) ∷ quantities d

  -- The result, from what recovery found and the holdings before and after seeding.
  abbrev pub findings_of :
      List String × List String → Dict (HoldingRow F) → Dict (HoldingRow F) → Findings
  findings_of found believed reported = record {
    resolved_orders = found.0;
    orphan_intents = found.1;
    overstated = overstatements (quantities believed) (quantities reported);
    untracked = untracked_in (quantities believed) (quantities reported);
  }

  -- `_already_booked(broker, order_id)`
  unfoldable pub already_booked : OrderLedger F → String → ℕ
  unfolding get_fills
  already_booked l order_id = sum_booked (get_fills (some order_id) l)

  -- `_already_booked_fees(broker, order_id)`
  unfoldable pub already_booked_fees : OrderLedger F → String → F.Num
  unfolding get_fills
  already_booked_fees l order_id = sum_fees (get_fills (some order_id) l) (zero_num F)

module _ {F : Floats} {W : Type 0} where
  -- An order that the ledger left open is open again, with what the ledger has booked of it.
  unfoldable pub readmit : String → OrderRow → Broker F W → Broker F W
  unfolding put already_booked already_booked_fees
  readmit order_no row b =
      let booked = already_booked b.ledger row.order_id in
      let charged = already_booked_fees b.ledger row.order_id in
      record b {
        open_orders = put b.open_orders order_no (record {
          order_id = row.order_id;
          symbol = row.symbol;
          quantity = row.quantity;
          portfolio_id = b.account_id;
          booked_quantity = booked;
          booked_fees = charged;
        });
        portfolio_booked = put b.portfolio_booked order_no booked;
        portfolio_charged = put b.portfolio_charged order_no charged;
      }

  unfoldable pub orphaned : OrderRow → ℕ → Broker F W → Broker F W
  unfolding record_state
  orphaned row dt b = record b {
    ledger =
        record_state row.order_id rejected dt
          (some (
            text
              "No order number recorded; the venue may still have accepted it. Verify against the balance."))
          b.ledger;
  }

  unfoldable pub holdings_of : Method (Broker F W) (Dict (HoldingRow F))
  unfolding get_portfolio_as_dict
  holdings_of b = get_portfolio_as_dict b.account_id b

  unfoldable pub halt_on : Bool → Findings → Broker F W → Broker F W
  unfolding set_trading_halted
  halt_on wanted r b = if wanted && halt_trading r then set_trading_halted true b else b

  unfoldable pub conclude : Bool → Findings → Method (Broker F W) Findings
  unfolding halt_on
  conclude wanted r = do modify (halt_on wanted r); pure r

module _ {F : Floats} {W : Type 0} (venue : Venue F W) where
  -- One round of the loop of `_recover_open_orders`, by the row's order number: the number when it
  -- is settled, and the id of an orphan.
  unfoldable pub recover_row :
      Option String → OrderRow → Method (Broker F W) (List String × List String)
  unfolding now orphaned readmit poll_once
  recover_row none row = do dt ← now venue; modify (orphaned row dt); pure ([], row.order_id ∷ [])
  recover_row (some order_no) row = do
    modify (readmit order_no row)
    is_done ← poll_once venue order_no
    pure ((if is_done then order_no ∷ [] else []), [])

  unfoldable pub recover_rows : List OrderRow → Method (Broker F W) (List String × List String)
  unfolding recover_row
  recover_rows [] = pure ([], [])
  recover_rows (row ∷ rows) = do
    this ← recover_row row.order_no row
    rest ← recover_rows rows
    pure (this.0 ++ rest.0, this.1 ++ rest.1)

  -- `_recover_open_orders(broker)`
  unfoldable pub recover_open_orders : Method (Broker F W) (List String × List String)
  unfolding recover_rows drain_fill_buffer close_all close_filled get_open_orders
  recover_open_orders = do
    found ← λ b. recover_rows (get_open_orders b.ledger) b
    drain_fill_buffer venue
    modify (close_all found.0 (close_filled venue))
    pure found

  -- `reconcile(broker, halt_on_mismatch)`
  unfoldable pub reconcile : Bool → Method (Broker F W) Findings
  unfolding recover_open_orders holdings_of seed_from_venue conclude overstatements untracked_in
  reconcile halt_on_mismatch = do
    found ← recover_open_orders
    believed ← holdings_of
    seed_from_venue venue
    reported ← holdings_of
    conclude halt_on_mismatch (findings_of found believed reported)
