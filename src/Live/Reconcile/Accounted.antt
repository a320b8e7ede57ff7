-- ===== src/Live/Reconcile/Accounted.antt =====
-- The ledger keeps up with the poller, so that a process which ends at any time is recovered from
-- what it had seen.
use vm_quant_trader.Prelude.{
  ℕ, ◌-◌, ◌≤◌, ◌≡◌, String, true, false, none, some, List, [], ◌∷◌, arith, ltb, if◌then◌else◌, ◌=ₛ◌,
  =ₛ_iff, Option-cases, Bool-cases, inl, inr,
}
use vm_quant_trader.Prelude.Int.{ℤ, pos, abs, ◌*ℤ◌}
use vm_quant_trader.Errors.{Result, ok, err, continue}
use vm_quant_trader.Floats.{Floats}
use vm_quant_trader.Dict.{get, get_or, put}
use vm_quant_trader.Dict.Laws.{get-put, get-put_self}
use vm_quant_trader.Live.Ledger.{OrderRow}
use vm_quant_trader.Live.Ledger.Fills.{has_fill, has_fill-record_fill}
use vm_quant_trader.Live.Client.{Venue, OrderReport}
use vm_quant_trader.Live.Broker.{Broker, OpenOrder, now}
use vm_quant_trader.Live.Collect.{
  direction_of, ledger_fill, hand_over, take_report, poll_once, booked_of,
}
use vm_quant_trader.Live.Collect.Poll.{poll_known, poll_unknown}
use vm_quant_trader.Live.Collect.Holdings.{engine_time}
use vm_quant_trader.Live.Settle.{poll_tasks}
use vm_quant_trader.Live.Reconcile.{already_booked, already_booked_fees, readmit}
use vm_quant_trader.Live.Reconcile.Booked.{already_booked-record_fill}

abs-direction_of : (q : ℤ) (n : ℕ) → abs (direction_of q *ℤ pos n) ≡ n
unfolding ◌*ℤ◌
abs-direction_of q n = ground arith

-- Every open order is of another order of the ledger, whose fills sum to what the poller has seen,
-- and no larger total is on record under its number.
pub record IsAccounted {F : Floats} {W : Type 0} (b : Broker F W) : Type 0 where
  pub distinct :
      (k k' : String) (s s' : OpenOrder F)
      → get b.open_orders k ≡ some s
      → get b.open_orders k' ≡ some s'
      → s.order_id ≡ s'.order_id
      → k ≡ k'
  pub booked :
      (k : String) (s : OpenOrder F)
      → get b.open_orders k ≡ some s
      → already_booked b.ledger s.order_id ≡ s.booked_quantity
  pub seen :
      (k : String) (s : OpenOrder F) (n : ℕ)
      → get b.open_orders k ≡ some s
      → has_fill b.ledger k n ≡ true
      → n ≤ s.booked_quantity

module _ {F : Floats} {W : Type 0} where
  -- A report with more than was seen, recorded and handed over.
  abbrev advanced : String → OpenOrder F → OrderReport F → ℕ → Broker F W → Broker F W
  advanced k s report dt b = hand_over k s report (ledger_fill k s report dt b)

  advanced-IsAccounted :
      (k : String) (s : OpenOrder F) (report : OrderReport F) (dt : ℕ) (b : Broker F W)
      → get b.open_orders k ≡ some s
      → ltb s.booked_quantity report.filled_quantity ≡ true
      → IsAccounted b
      → IsAccounted (advanced k s report dt b)
  unfolding hand_over ledger_fill
  advanced-IsAccounted k s report dt b e more v = record {
    distinct = λ j j' t t' g g' h. ground (
      arith,
      e,
      g,
      g',
      h,
      wrote j,
      wrote j',
      =ₛ_iff k j,
      =ₛ_iff k j',
      v.distinct j j' t t',
      v.distinct k j' s t' e,
      v.distinct j k t s,
    );
    booked = λ j t g.
        let grew =
          already_booked-record_fill s.order_id k report.filled_quantity
            (direction_of s.quantity *ℤ pos (report.filled_quantity - s.booked_quantity))
            report.average_price (F.sub report.fees s.booked_fees) dt none b.ledger t.order_id
            fresh in
        ground (
          arith,
          e,
          more,
          g,
          wrote j,
          =ₛ_iff k j,
          =ₛ_iff s.order_id t.order_id,
          v.booked j t,
          v.booked k s e,
          v.distinct k j s t e,
          grew,
          abs-direction_of s.quantity (report.filled_quantity - s.booked_quantity),
        );
    seen = λ j t n g f.
        let on_record =
          has_fill-record_fill s.order_id k report.filled_quantity
            (direction_of s.quantity *ℤ pos (report.filled_quantity - s.booked_quantity))
            report.average_price (F.sub report.fees s.booked_fees) dt none b.ledger j n in
        ground
          (arith, e, more, g, wrote j, =ₛ_iff k j, v.seen j t n, v.seen k s n e, on_record.0, f);
  }
    where
      next : OpenOrder F
      next = record s { booked_quantity = report.filled_quantity; booked_fees = report.fees }

      wrote :
          (j : String)
          → get (put b.open_orders k next) j ≡ (if k =ₛ j then some next else get b.open_orders j)
      wrote j = get-put b.open_orders k j next

      fresh : has_fill b.ledger k report.filled_quantity ≡ false
      fresh = ground (arith, more, v.seen k s report.filled_quantity e)

  world_IsAccounted :
      (b : Broker F W) (w : W) → IsAccounted b → IsAccounted (record b { world = w })
  world_IsAccounted b w v = record { distinct = v.distinct; booked = v.booked; seen = v.seen }

module _ {F : Floats} {W : Type 0} (venue : Venue F W) where
  take_report-IsAccounted :
      (k : String) (s : OpenOrder F) (report : OrderReport F) (b : Broker F W)
      → get b.open_orders k ≡ some s
      → IsAccounted b
      → IsAccounted (take_report venue k s report b).1
  unfolding take_report now
  take_report-IsAccounted k s report b e v =
      elim (Bool-cases (ltb s.booked_quantity report.filled_quantity)) [
        | inl more ↦
            let b1 : Broker F W = record b { world = (venue.clock b.world).1 } in
            rw more (
              advanced-IsAccounted k s report (engine_time venue b) b1 e more
                (world_IsAccounted b (venue.clock b.world).1 v))
        | inr same ↦ rw same v
      ]

  answer_IsAccounted :
      (k : String) (s : OpenOrder F) (b : Broker F W) (answer : Result (OrderReport F) × W)
      → get b.open_orders k ≡ some s
      → IsAccounted b
      → IsAccounted (continue (take_report venue k s) (answer.0, record b { world = answer.1 })).1
  answer_IsAccounted k s b (ok report, w) e v =
      take_report-IsAccounted k s report (record b { world = w }) e (world_IsAccounted b w v)
  answer_IsAccounted k s b (err x, w) e v = world_IsAccounted b w v

  poll_once-IsAccounted :
      (k : String) (b : Broker F W) → IsAccounted b → IsAccounted (poll_once venue k b).1
  poll_once-IsAccounted k b v = elim (Option-cases (get b.open_orders k)) [
    | inl e ↦ rw (poll_unknown venue k b e) v
    | inr (s, e) ↦
        rw (poll_known venue k s b e)
          (answer_IsAccounted k s b (venue.get_order_report k b.world) e v)
  ]

  poll_tasks-IsAccounted :
      (posted : List String) (b : Broker F W)
      → IsAccounted b
      → IsAccounted (poll_tasks venue posted b).1
  unfolding poll_tasks
  poll_tasks-IsAccounted [] b v = v
  poll_tasks-IsAccounted (k ∷ posted) b v =
      poll_tasks-IsAccounted posted (poll_once venue k b).1 (poll_once-IsAccounted k b v)

  -- A process ends after any polls of a broker whose ledger kept up, and another with the same
  -- ledger takes an open order back: the watermark of its portfolio and that of its poller are
  -- exactly what the first process had seen of the order.
  pub readmit_after_polls :
      (posted : List String) (b c : Broker F W) (k : String) (s : OpenOrder F) (row : OrderRow)
      → IsAccounted b
      → get (poll_tasks venue posted b).1.open_orders k ≡ some s
      → c.ledger ≡ (poll_tasks venue posted b).1.ledger
      → row.order_id ≡ s.order_id
      → (booked_of (readmit k row c) k ≡ s.booked_quantity)
        × (get (readmit k row c).open_orders k
            ≡ some (record {
              order_id = row.order_id;
              symbol = row.symbol;
              quantity = row.quantity;
              portfolio_id = c.account_id;
              booked_quantity = s.booked_quantity;
              booked_fees = already_booked_fees c.ledger row.order_id;
            }))
  unfolding readmit booked_of get_or
  readmit_after_polls posted b c k s row v e same_ledger same_id =
      let known = (poll_tasks-IsAccounted posted b v).booked k s e in
      let read : already_booked c.ledger row.order_id ≡ s.booked_quantity =
        rw (same_ledger, same_id) known in
      (
        ground
            (arith, read, get-put_self c.portfolio_booked k (already_booked c.ledger row.order_id)),
        rw read (get-put_self c.open_orders k _),
      )
