-- ===== src/Live/Ledger/Tests.antt =====
-- A ledger with two orders, of which one is filled in part.
use vm_quant_trader.Prelude.{
  ◌≡◌, refl, String, false, not, ◌||◌, ◌&&◌, ◌==◌, ◌=ₛ◌, none, some, List, [], ◌∷◌,
}
use vm_quant_trader.Prelude.Int.{pos, negsuc}
use vm_quant_trader.Floats.Whole.{whole}
use vm_quant_trader.Live.Ledger.{
  OrderLedger, Identity, OrderRow, filled, stale, empty_ledger, record_intent, record_submitted,
  record_state, record_fill, get_open_orders,
}
use vm_quant_trader.Live.Ledger.Fills.{has_fill, has_fill-record_fill, record_fill_twice}
use vm_quant_trader.Live.Ledger.Orders.{IsSortedBy}
use vm_quant_trader.Live.Ledger.Recovery.{
  Call, intends, submits, changes, run, rows_of, get_open_orders-run,
}

abbrev book : OrderLedger whole
unfolding record_intent record_submitted record_state record_fill empty_ledger
book =
    (record_fill "o2" "K2" 4 (pos 4) (pos 700) (pos 1) 9 none (
      record_state "o1" filled 8 none (
        record_submitted "o2" "K2" 7 (
          record_intent "o1" "000660" (negsuc 4) 6
            (record_intent "o2" "005930" (pos 10) 5 (empty_ledger whole)))))).1

-- The ids of what is still open.
abbrev ids : List OrderRow → List String
ids [] = []
ids (row ∷ rows) = row.order_id ∷ ids rows

one_open : ids (get_open_orders book) ≡ "o2" ∷ []
unfolding book get_open_orders
one_open = refl

has_fill-record_fill_example :
    let (new, l) = record_fill "o2" "K2" 10 (pos 6) (pos 705) (pos 2) 9 none book in
    (has_fill l "K2" 4 ≡ (has_fill book "K2" 4 || ("K2" =ₛ "K2" && 10 == 4)))
    × (new ≡ not (has_fill book "K2" 10))
    × (l.orders ≡ book.orders)
    × (l.equity_curve ≡ book.equity_curve)
    × (l.meta ≡ book.meta)
has_fill-record_fill_example =
    has_fill-record_fill "o2" "K2" 10 (pos 6) (pos 705) (pos 2) 9 none book "K2" 4

record_fill_twice_example :
    let l = (record_fill "o2" "K2" 10 (pos 6) (pos 705) (pos 2) 9 none book).1 in
    record_fill "o2" "K2" 10 (pos 1) (pos 9) (pos 0) 12 (some "10:00") l ≡ (false, l)
record_fill_twice_example =
    record_fill_twice "o2" "o2" "K2" 10 (pos 6) (pos 1) (pos 705) (pos 9) (pos 2) (pos 0) 9 12 none
      (some "10:00") book

-- Two orders are intended; one is submitted and the other goes stale.
abbrev calls : List Call
calls =
    intends "o2" "005930" (pos 10) 5
    ∷ intends "o1" "000660" (negsuc 4) 6
    ∷ submits "o2" "K2" 7
    ∷ changes "o1" stale 8 none
    ∷ []

get_open_orders-run_example :
    let rows = get_open_orders (run calls (empty_ledger whole)) in
    (rows_of "o2" rows ≡ 1) × IsSortedBy (λ row. row.created_at) rows
get_open_orders-run_example = get_open_orders-run whole "o2" calls

abbrev paper : Identity
paper = record { venue = "kis"; mode = "paper"; account_id = "1" }

abbrev real : Identity
real = record { venue = "kis"; mode = "live"; account_id = "1" }

abbrev unused : OrderLedger whole
unfolding empty_ledger
unused = empty_ledger whole
