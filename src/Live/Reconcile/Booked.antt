-- ===== src/Live/Reconcile/Booked.antt =====
-- What recovery reads back from the ledger: of an order, the sum of the fills is what the poller
-- had seen when the process ended.
use vm_quant_trader.Prelude.{
  ℕ, ◌+◌, ◌≡◌, refl, String, false, Option, List, [], ◌∷◌, arith, if◌then◌else◌, ◌=ₛ◌,
}
use vm_quant_trader.Prelude.Int.{ℤ, abs}
use vm_quant_trader.Floats.{Floats}
use vm_quant_trader.Dict.{Dict, get, contains, put, values}
use vm_quant_trader.Live.Ledger.{
  OrderLedger, FillRow, insert_by, sort_by, where_rows, get_fills, record_fill, fill_key,
}
use vm_quant_trader.Live.Ledger.Fills.{has_fill}
use vm_quant_trader.Live.Reconcile.{sum_booked, already_booked}

module _ {F : Floats} where
  sum-insert_by :
      (f : FillRow F → ℕ) (row : FillRow F) (l : List (FillRow F))
      → sum_booked (insert_by f row l) ≡ sum_booked (row ∷ l)
  unfolding insert_by
  sum-insert_by f row [] = refl
  sum-insert_by f row (r ∷ l) = ground (arith, sum-insert_by f row l)

  sum-sort_by : (f : FillRow F → ℕ) (l : List (FillRow F)) → sum_booked (sort_by f l) ≡ sum_booked l
  unfolding sort_by
  sum-sort_by f [] = refl
  sum-sort_by f (row ∷ l) = ground (arith, sum-insert_by f row (sort_by f l), sum-sort_by f l)

  -- The fills of an order, in the order of the table.
  abbrev of_order : String → List (FillRow F) → List (FillRow F)
  unfolding where_rows
  of_order id l = where_rows (λ row. row.order_id =ₛ id) l

  sum-put :
      (d : Dict (FillRow F)) (k id : String) (row : FillRow F)
      → contains d k ≡ false
      → sum_booked (of_order id (values (put d k row)))
        ≡ sum_booked (of_order id (values d)) + (if row.order_id =ₛ id then abs row.quantity else 0)
  unfolding of_order values put contains get where_rows
  sum-put [] k id row h = ground arith
  sum-put ((j, r) ∷ d) k id row h = ground (arith, h, sum-put d k id row)

  already_booked_sum :
      (l : OrderLedger F) (id : String)
      → already_booked l id ≡ sum_booked (of_order id (values l.fills))
  unfolding already_booked get_fills of_order
  already_booked_sum l id = sum-sort_by (λ row. row.engine_time) (of_order id (values l.fills))

  -- A fill that is recorded anew adds its quantity to what recovery reads of its order, and nothing
  -- to other orders.
  pub already_booked-record_fill :
      (id order_no : String) (n : ℕ) (q : ℤ) (price fees : F.Num) (dt : ℕ) (at : Option String)
      (l : OrderLedger F) (other : String)
      → has_fill l order_no n ≡ false
      → already_booked (record_fill id order_no n q price fees dt at l).1 other
        ≡ already_booked l other + (if id =ₛ other then abs q else 0)
  unfolding record_fill has_fill
  already_booked-record_fill id order_no n q price fees dt at l other fresh = ground (
    arith,
    fresh,
    already_booked_sum l other,
    already_booked_sum (record_fill id order_no n q price fees dt at l).1 other,
    sum-put l.fills (fill_key order_no n) other (record {
      fill_key = fill_key order_no n;
      order_id = id;
      order_no = order_no;
      quantity = q;
      price = price;
      fees = fees;
      venue_time = at;
      engine_time = dt;
    }),
  )
