-- ===== src/Live/Settle/Rounds.antt =====
-- Polls, drains and closings keep every open order's row submitted.
use vm_quant_trader.Prelude.{
  ℕ, ◌≡◌, refl, String, Option, none, some, List, [], ◌∷◌, arith, ltb, Option-cases, Bool-cases,
  inl, inr,
}
use vm_quant_trader.Errors.{Result, ok, err, continue}
use vm_quant_trader.Floats.{Floats}
use vm_quant_trader.Dict.{get}
use vm_quant_trader.Live.Ledger.{State, filled, Note, record_fill, get_order}
use vm_quant_trader.Live.Client.{Venue, OrderReport}
use vm_quant_trader.Live.Broker.{Broker, OpenOrder, now}
use vm_quant_trader.Live.Collect.{
  ledger_fill, hand_over, take_report, poll_once, drain_fill_buffer, close_order,
}
use vm_quant_trader.Live.Collect.Poll.{poll_known, poll_unknown}
use vm_quant_trader.Live.Collect.Holdings.{engine_time}
use vm_quant_trader.Live.Settle.{poll_tasks, close_all, close_filled}
use vm_quant_trader.Live.Settle.Listed.{
  IsListed, same-IsListed, put-IsListed, remove-IsListed, drain_same,
}

module _ {F : Floats} {W : Type 0} where
  filled_IsListed :
      (order_no : String) (s : OpenOrder F) (report : OrderReport F) (dt : ℕ) (b : Broker F W)
      → IsListed b
      → IsListed (ledger_fill order_no s report dt b)
  unfolding ledger_fill record_fill get_order
  filled_IsListed order_no s report dt b v = record {
    unique = v.unique;
    distinct = v.distinct;
    listed = λ k t g. ground (arith, v.listed k t g);
  }

  hand_over-IsListed :
      (order_no : String) (s : OpenOrder F) (report : OrderReport F) (b : Broker F W)
      → get b.open_orders order_no ≡ some s
      → IsListed b
      → IsListed (hand_over order_no s report b)
  unfolding hand_over
  hand_over-IsListed order_no s report b e v =
      let next : OpenOrder F = record s {
        booked_quantity = report.filled_quantity;
        booked_fees = report.fees;
      } in
      let v' = put-IsListed b order_no s next e refl v in
      record { unique = v'.unique; distinct = v'.distinct; listed = v'.listed }

  pub world_IsListed : (b : Broker F W) (w : W) → IsListed b → IsListed (record b { world = w })
  world_IsListed b w v = record { unique = v.unique; distinct = v.distinct; listed = v.listed }

module _ {F : Floats} {W : Type 0} (venue : Venue F W) where
  take_report-IsListed :
      (order_no : String) (s : OpenOrder F) (report : OrderReport F) (b : Broker F W)
      → get b.open_orders order_no ≡ some s
      → IsListed b
      → IsListed (take_report venue order_no s report b).1
  unfolding take_report now ledger_fill
  take_report-IsListed order_no s report b e v =
      elim (Bool-cases (ltb s.booked_quantity report.filled_quantity)) [
        | inl more ↦ rw more (
            hand_over-IsListed order_no s report _ e (
              filled_IsListed order_no s report (engine_time venue b) _
                (world_IsListed b (venue.clock b.world).1 v)))
        | inr same ↦ rw same v
      ]

  answer_IsListed :
      (order_no : String) (s : OpenOrder F) (b : Broker F W) (answer : Result (OrderReport F) × W)
      → get b.open_orders order_no ≡ some s
      → IsListed b
      → IsListed
          (continue (take_report venue order_no s) (answer.0, record b { world = answer.1 })).1
  answer_IsListed order_no s b (ok report, w) e v =
      take_report-IsListed order_no s report (record b { world = w }) e (world_IsListed b w v)
  answer_IsListed order_no s b (err x, w) e v = world_IsListed b w v

  poll_once-IsListed :
      (order_no : String) (b : Broker F W) → IsListed b → IsListed (poll_once venue order_no b).1
  poll_once-IsListed order_no b v = elim (Option-cases (get b.open_orders order_no)) [
    | inl e ↦ rw (poll_unknown venue order_no b e) v
    | inr (s, e) ↦
        rw (poll_known venue order_no s b e)
          (answer_IsListed order_no s b (venue.get_order_report order_no b.world) e v)
  ]

  pub poll_tasks-IsListed :
      (posted : List String) (b : Broker F W) → IsListed b → IsListed (poll_tasks venue posted b).1
  unfolding poll_tasks
  poll_tasks-IsListed [] b v = v
  poll_tasks-IsListed (order_no ∷ posted) b v =
      poll_tasks-IsListed posted (poll_once venue order_no b).1 (poll_once-IsListed order_no b v)

  pub close_order-IsListed :
      (order_no : String) (end_state : State) (reason : Option Note) (b : Broker F W)
      → IsListed b
      → IsListed (close_order venue order_no end_state reason b)
  unfolding close_order
  close_order-IsListed order_no end_state reason b v =
      elim (Option-cases (get b.open_orders order_no)) [
        | inl e ↦ rw (e, close_order) v
        | inr (s, e) ↦
            rw (e, close_order)
              (remove-IsListed b order_no s (venue.clock b.world).1 end_state (engine_time venue b)
                reason e v)
      ]

  pub close_filled-IsListed :
      (done : List String) (b : Broker F W)
      → IsListed b
      → IsListed (close_all done (close_filled venue) b)
  unfolding close_all close_filled
  close_filled-IsListed [] b v = v
  close_filled-IsListed (k ∷ done) b v =
      close_filled-IsListed done (close_order venue k filled none b)
        (close_order-IsListed k filled none b v)

  pub drain-IsListed : (b : Broker F W) → IsListed b → IsListed (drain_fill_buffer venue b).1
  drain-IsListed b v = same-IsListed b (drain_fill_buffer venue b).1 (drain_same venue b) v
