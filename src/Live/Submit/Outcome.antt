-- ===== src/Live/Submit/Outcome.antt =====
-- What sending an order leaves: in the ledger, in the open orders, in the guard and in the world.
use vm_quant_trader.Prelude.{
  ℕ, ◌+◌, ◌≡◌, refl, String, not, Option, none, some, arith, if◌then◌else◌, ◌=ₛ◌, =ₛ_iff, is_some,
}
use vm_quant_trader.Prelude.Int.{ℤ}
use vm_quant_trader.Errors.{Result, ok, err, Exc, is_ok, is_stop_requested}
use vm_quant_trader.Floats.{Floats, zero_num}
use vm_quant_trader.Dict.{get}
use vm_quant_trader.Dict.Laws.{get-put}
use vm_quant_trader.Order.{Order}
use vm_quant_trader.Live.Guards.{check_order, record_submission}
use vm_quant_trader.Live.Guards.Gate.{stops}
use vm_quant_trader.Live.Ledger.{
  OrderLedger, OrderRow, submitted, rejected, of_error, Note, get_order, record_intent,
  record_submitted, record_state,
}
use vm_quant_trader.Live.Ledger.Orders.{
  intent_row, get_order-record_intent, get_order-record_submitted, get_order-record_state,
}
use vm_quant_trader.Live.Client.{Venue}
use vm_quant_trader.Live.Broker.{Broker}
use vm_quant_trader.Live.Submit.{send, refuse, answered, new_open_order}

abbrev ok_of {ℓ} : {A : Type ℓ} → Result A → Option A
ok_of (ok a) = some a
ok_of (err e) = none

module _ {F : Floats} where
  -- The row of a new order, refused or bounced.
  rejected_row :
      (l : OrderLedger F) (id symbol : String) (q : ℤ) (dt : ℕ) (n : Note)
      → get_order id l ≡ none
      → get_order id (record_state id rejected dt (some n) (record_intent id symbol q dt l))
        ≡ some (record (intent_row id symbol q dt) { state = rejected; note = some n })
  rejected_row l id symbol q dt n fresh = ground (
    arith,
    =ₛ_iff id id,
    get_order-record_intent id symbol q dt l id,
    get_order-record_state id rejected dt (some n) (record_intent id symbol q dt l) id,
    fresh,
  )

  submitted_row :
      (l : OrderLedger F) (id symbol order_no : String) (q : ℤ) (dt : ℕ)
      → get_order id l ≡ none
      → get_order id (record_submitted id order_no dt (record_intent id symbol q dt l))
        ≡ some (record (intent_row id symbol q dt) { state = submitted; order_no = some order_no })
  submitted_row l id symbol order_no q dt fresh = ground (
    arith,
    =ₛ_iff id id,
    get_order-record_intent id symbol q dt l id,
    get_order-record_submitted id order_no dt (record_intent id symbol q dt l) id,
    fresh,
  )

-- What the venue answers, where it is asked: only after the check returned.
abbrev placed : Result (Unit {0}) → Result String → Option String
placed (err e) answer = none
placed (ok _) answer = ok_of answer

-- The row that the ledger has for an order after it was sent.
abbrev row_after : {F : Floats} → Order F → ℤ → ℕ → Result (Unit {0}) → Result String → OrderRow
row_after o q dt (err e) answer = record (intent_row o.order_id o.asset q dt) {
  state = rejected;
  note = some (of_error e);
}
row_after o q dt (ok _) (err e) = record (intent_row o.order_id o.asset q dt) {
  state = rejected;
  note = some (of_error e);
}
row_after o q dt (ok _) (ok order_no) = record (intent_row o.order_id o.asset q dt) {
  state = submitted;
  order_no = some order_no;
}

-- What sending an order leaves, for an answer of the guard and an answer of the venue. The outcome
-- is an error exactly when the guard raised a stop signal. The venue is asked exactly when the
-- guard passes the order. The row is submitted, with the venue's number, or rejected, with the
-- reason. The guard counts the orders that were taken, and they are open with nothing booked.
pub record Sent {F : Floats} {W : Type 0} (id : String) (o : Order F) (q : ℤ) (dt : ℕ)
    (b : Broker F W) (check : Result (Unit {0})) (answer : Result String × W)
    (out : Result (Unit {0}) × Broker F W) : Type 0 where
  pub returns : is_ok out.0 ≡ not (stops check)
  pub asked : out.1.world ≡ (if is_ok check then answer.1 else b.world)
  pub row : get_order o.order_id out.1.ledger ≡ some (row_after o q dt check answer.0)
  pub counted :
      out.1.guard.orders_submitted
      ≡ b.guard.orders_submitted + (if is_some (placed check answer.0) then 1 else 0)
  pub opened :
      (k : String)
      → get out.1.open_orders k ≡ elim (placed check answer.0) [
        | none ↦ get b.open_orders k
        | some order_no ↦
            if order_no =ₛ k
            then some (record {
              order_id = o.order_id;
              symbol = o.asset;
              quantity = q;
              portfolio_id = id;
              booked_quantity = 0;
              booked_fees = zero_num F;
            })
            else get b.open_orders k
      ]

module _ {F : Floats} {W : Type 0} (id : String) (o : Order F) (q : ℤ) (dt : ℕ)
    (b : Broker F W) where
  refuse-Sent :
      (e : Exc) (answer : Result String × W)
      → get_order o.order_id b.ledger ≡ none
      → Sent id o q dt b (err e) answer (refuse o q dt e b)
  unfolding is_stop_requested refuse
  refuse-Sent e answer fresh = record {
    returns = ground arith;
    asked = ground arith;
    row = ground (arith, rejected_row b.ledger o.order_id o.asset q dt (of_error e));
    counted = ground arith;
    opened = λ k. ground arith;
  }

  -- With the intent written, the venue's answer is booked.
  abbrev pub after_answer : Result String × W → Result (Unit {0}) × Broker F W
  after_answer (a, w) =
      answered id o q dt
        (a, record b { ledger = record_intent o.order_id o.asset q dt b.ledger; world = w })

  answered-Sent :
      (answer : Result String × W)
      → get_order o.order_id b.ledger ≡ none
      → Sent id o q dt b (ok tt) answer (after_answer answer)
  unfolding record_submission answered new_open_order
  answered-Sent (err e, w) fresh = record {
    returns = refl;
    asked = refl;
    row = ground (arith, rejected_row b.ledger o.order_id o.asset q dt (of_error e));
    counted = ground arith;
    opened = λ k. ground arith;
  }
  answered-Sent (ok order_no, w) fresh = record {
    returns = refl;
    asked = refl;
    row = ground (arith, submitted_row b.ledger o.order_id o.asset order_no q dt);
    counted = ground arith;
    opened = λ k. get-put b.open_orders order_no k _;
  }

module _ {F : Floats} {W : Type 0} (venue : Venue F W) where
  -- Sending an order that has no row in the ledger leaves what `Sent` says, for whatever the guard
  -- and the venue answer: whether it raises, whether the venue was asked, the row, the count and
  -- the open orders.
  pub send-Sent :
      (id : String) (o : Order F) (q : ℤ) (price : F.Num) (dt : ℕ) (b : Broker F W)
      → get_order o.order_id b.ledger ≡ none
      → Sent id o q dt b
          (check_order (venue.path_exists b.world) q price b.guard)
          (venue.place_market_order o.asset q b.world)
          (send venue id o q price dt b)
  unfolding send
  send-Sent id o q price dt b fresh =
      by_check (check_order (venue.path_exists b.world) q price b.guard)
    where
      by_check :
          (check : Result (Unit {0}))
          → Sent id o q dt b check (venue.place_market_order o.asset q b.world) (elim check [
            | err e ↦ refuse o q dt e b
            | ok _ ↦ after_answer id o q dt b (venue.place_market_order o.asset q b.world)
          ])
      by_check (err e) =
          refuse-Sent id o q dt b e (venue.place_market_order o.asset q b.world) fresh
      by_check (ok _) = answered-Sent id o q dt b (venue.place_market_order o.asset q b.world) fresh
