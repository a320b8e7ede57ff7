-- ===== src/Live/Collect/Poll.antt =====
-- Polling: what the poller has seen is what the portfolio will have when the buffer is drained.
use vm_quant_trader.Prelude.{
  ℕ, ◌≡◌, refl, ◌∙◌, String, true, none, some, List, [], ◌∷◌, ◌++◌, arith, ltb, if◌then◌else◌,
  =ₛ_iff, Option-cases, Bool-cases, inl, inr, All, All-append,
}
use vm_quant_trader.Errors.{Result, ok, err, is_ok, continue}
use vm_quant_trader.Floats.{Floats}
use vm_quant_trader.Dict.{get, get_or}
use vm_quant_trader.Dict.Laws.{get-put}
use vm_quant_trader.Live.Client.{Venue, OrderReport}
use vm_quant_trader.Live.Broker.{Broker, OpenOrder, Fill, now}
use vm_quant_trader.Live.Collect.{
  new_fill, ledger_fill, hand_over, booked_of, take_report, poll_once, drain_fill_buffer,
}
use vm_quant_trader.Live.Collect.Shares.{Terms, Agrees}
use vm_quant_trader.Live.Collect.Holdings.{Has, Kept, same_holding, drain_fill_buffer-Kept}
use vm_quant_trader.Live.Collect.Watermark.{latest, drain_fill_buffer_watermark}

latest-append :
    {F : Floats} (fs : List (Fill F)) (f : Fill F) (k : String) (n : ℕ)
    → latest (fs ++ f ∷ []) k n ≡ latest (f ∷ []) k (latest fs k n)
latest-append [] f k n = refl
latest-append (g ∷ fs) f k n = latest-append fs f k _

-- Of each open order, what the poller has seen is the largest total that the portfolio has or that
-- the buffer holds.
pub record InStep {F : Floats} {W : Type 0} (b : Broker F W) : Type 0 where
  pub seen :
      (k : String) (s : OpenOrder F)
      → get b.open_orders k ≡ some s
      → latest b.fill_buffer k (booked_of b k) ≡ s.booked_quantity

module _ {F : Floats} {W : Type 0} (venue : Venue F W) where
  take_report-InStep :
      (order_no : String) (s : OpenOrder F) (report : OrderReport F) (b : Broker F W)
      → get b.open_orders order_no ≡ some s
      → InStep b
      → InStep (take_report venue order_no s report b).1
  unfolding take_report now hand_over ledger_fill booked_of
  take_report-InStep order_no s report b e v = record {
    seen = λ k s' e'. ground (
      arith,
      e,
      e',
      =ₛ_iff order_no k,
      v.seen k s',
      v.seen order_no s e,
      latest-append b.fill_buffer (new_fill order_no s report) k (get_or b.portfolio_booked k 0),
      get-put b.open_orders order_no k
          (record s { booked_quantity = report.filled_quantity; booked_fees = report.fees }),
    );
  }

  world_InStep : (b : Broker F W) (w : W) → InStep b → InStep (record b { world = w })
  unfolding booked_of
  world_InStep b w v = record { seen = v.seen }

  -- What `continue` does with an answer of the world.
  answer_InStep :
      (order_no : String) (s : OpenOrder F) (b : Broker F W) (answer : Result (OrderReport F) × W)
      → get b.open_orders order_no ≡ some s
      → InStep b
      → InStep (continue (take_report venue order_no s) (answer.0, record b { world = answer.1 })).1
  answer_InStep order_no s b (ok report, w) e v =
      take_report-InStep order_no s report (record b { world = w }) e (world_InStep b w v)
  answer_InStep order_no s b (err x, w) e v = world_InStep b w v

  pub poll_known :
      (order_no : String) (s : OpenOrder F) (b : Broker F W)
      → get b.open_orders order_no ≡ some s
      → let (r, w) = venue.get_order_report order_no b.world in
        poll_once venue order_no b
        ≡ continue (take_report venue order_no s) (r, record b { world = w })
  unfolding poll_once
  poll_known order_no s b e = rw (e, poll_once)

  pub poll_unknown :
      (order_no : String) (b : Broker F W)
      → get b.open_orders order_no ≡ none
      → poll_once venue order_no b ≡ (ok true, b)
  unfolding poll_once
  poll_unknown order_no b e = rw (e, poll_once)

  -- A poll keeps the poller in step with the buffer and the portfolio, also when the venue raises.
  pub poll_once-InStep :
      (order_no : String) (b : Broker F W) → InStep b → InStep (poll_once venue order_no b).1
  poll_once-InStep order_no b v = elim (Option-cases (get b.open_orders order_no)) [
    | inl e ↦ rw (poll_unknown order_no b e) v
    | inr (s, e) ↦
        rw (poll_known order_no s b e)
          (answer_InStep order_no s b (venue.get_order_report order_no b.world) e v)
  ]

  -- After any polls, a drain that returns leaves the portfolio with exactly what the poller saw
  -- of each open order.
  drain_after_polls :
      (b : Broker F W) (k : String) (s : OpenOrder F)
      → InStep b
      → get b.open_orders k ≡ some s
      → is_ok (drain_fill_buffer venue b).0 ≡ true
      → booked_of (drain_fill_buffer venue b).1 k ≡ s.booked_quantity
  drain_after_polls b k s v e returns = drain_fill_buffer_watermark venue b k returns ∙ v.seen k s e

  polled_as :
      (order_no : String) (s : OpenOrder F) (report : OrderReport F) (b : Broker F W) (w : W)
      → get b.open_orders order_no ≡ some s
      → venue.get_order_report order_no b.world ≡ (ok report, w)
      → poll_once venue order_no b ≡ take_report venue order_no s report (record b { world = w })
  polled_as order_no s report b w e answer = rw (poll_known order_no s b e, answer) refl

  -- The open order after a report.
  abbrev seen_order : OpenOrder F → OrderReport F → OpenOrder F
  seen_order s report =
      if ltb s.booked_quantity report.filled_quantity
      then record s { booked_quantity = report.filled_quantity; booked_fees = report.fees }
      else s

  take_report_seen :
      (order_no : String) (s : OpenOrder F) (report : OrderReport F) (b : Broker F W)
      → get b.open_orders order_no ≡ some s
      → get (take_report venue order_no s report b).1.open_orders order_no
        ≡ some (seen_order s report)
  unfolding take_report now hand_over ledger_fill
  take_report_seen order_no s report b e = ground (
    arith,
    e,
    =ₛ_iff order_no order_no,
    get-put b.open_orders order_no order_no (seen_order s report),
  )

  -- A poll touches no portfolio and no watermark of one, and buffers fills of known orders.
  record Polled (terms : Terms) (id : String) (b b' : Broker F W) : Type 0 where
    portfolios : b'.portfolios ≡ b.portfolios
    booked : b'.portfolio_booked ≡ b.portfolio_booked
    agree : All (Agrees terms id) b'.fill_buffer

  take_report-Polled :
      (terms : Terms) (id order_no : String) (s : OpenOrder F) (report : OrderReport F)
      (b : Broker F W)
      → All (Agrees terms id) b.fill_buffer
      → Agrees terms id (new_fill order_no s report)
      → Polled terms id b (take_report venue order_no s report b).1
  unfolding take_report now hand_over ledger_fill
  take_report-Polled terms id order_no s report b agree new =
      let more =
        All-append (Agrees terms id) b.fill_buffer (new_fill order_no s report ∷ []) agree
          (new, tt) in
      record {
        portfolios = ground arith;
        booked = ground arith;
        agree = elim (Bool-cases (ltb s.booked_quantity report.filled_quantity)) [
          | inl ahead ↦ rw ahead more
          | inr behind ↦ rw behind agree
        ];
      }

  Polled-Has :
      (terms : Terms) (id : String) (b b' : Broker F W)
      → Polled terms id b b'
      → Has b id
      → Has b' id
  Polled-Has terms id b b' v has = record {
    portfolio = has.portfolio;
    at = rw v.portfolios has.at;
    filed = has.filed;
  }

  Polled-Kept :
      (terms : Terms) (id : String) (b b' c : Broker F W)
      → Polled terms id b b'
      → Kept terms id b' c
      → Kept terms id b c
  Polled-Kept terms id b b' c v kept = record {
    has = kept.has;
    conserved =
        λ j. ground (arith, v.booked, kept.conserved j, same_holding b b' id j v.portfolios);
  }

  -- An open order of a portfolio that the broker has is polled, with the poller in step and the
  -- venue answering, and then drained by a call that returns, all fills agreeing with their orders:
  -- the watermark of the order is the total of the venue's report, or what was seen before when
  -- that is more; and of every asset the portfolio has moved from what it held before the poll by
  -- exactly as much as its watermarks did.
  pub poll_then_drain :
      (terms : Terms) (id k : String) (s : OpenOrder F) (report : OrderReport F) (b : Broker F W)
      (w : W)
      → InStep b
      → Has b id
      → All (Agrees terms id) b.fill_buffer
      → Agrees terms id (new_fill k s report)
      → get b.open_orders k ≡ some s
      → venue.get_order_report k b.world ≡ (ok report, w)
      → is_ok (drain_fill_buffer venue (poll_once venue k b).1).0 ≡ true
      → let b' = (drain_fill_buffer venue (poll_once venue k b).1).1 in
        (booked_of b' k ≡ (
          if ltb s.booked_quantity report.filled_quantity
          then report.filled_quantity
          else s.booked_quantity))
        × Kept terms id b b'
  poll_then_drain terms id k s report b w v has agree new e answer returns =
      let c = (poll_once venue k b).1 in
      let polled : Polled terms id b c =
        let p = take_report-Polled terms id k s report (record b { world = w }) agree new in
        rw (polled_as k s report b w e answer)
          (record { portfolios = p.portfolios; booked = p.booked; agree = p.agree }) in
      let kept =
        drain_fill_buffer-Kept venue terms id c (Polled-Has terms id b c polled has) polled.agree
          returns in
      let found : get (poll_once venue k b).1.open_orders k ≡ some (seen_order s report) =
        rw (polled_as k s report b w e answer)
          (take_report_seen k s report (record b { world = w }) e) in
      (
        ground (
          arith,
          drain_after_polls c k (seen_order s report) (poll_once-InStep k b v) found returns,
        ),
        Polled-Kept terms id b c (drain_fill_buffer venue c).1 polled kept,
      )
