-- ===== src/Live/Settle/Endings.antt =====
-- How settlement ends: what is left open says why the loop ended.
use vm_quant_trader.Prelude.{
  ℕ, zero, suc, ◌+◌, ◌≡◌, refl, String, Bool, true, false, not, Option, some, List, [], ◌∷◌, arith,
  leb, if◌then◌else◌, =ₛ_iff, Bool-cases, inl, inr, ◌&&◌,
}
use vm_quant_trader.Errors.{Result, ok, err, is_ok}
use vm_quant_trader.Floats.{Floats}
use vm_quant_trader.Dict.{Dict, get, remove, keys}
use vm_quant_trader.Live.Ledger.{stale, Note, text}
use vm_quant_trader.Live.Client.{Venue}
use vm_quant_trader.Live.Guards.{is_kill_switch_engaged}
use vm_quant_trader.Live.Broker.{Broker, OpenOrder, now}
use vm_quant_trader.Live.Collect.{drain_fill_buffer, close_order}
use vm_quant_trader.Live.Collect.Holdings.{engine_time}
use vm_quant_trader.Live.Settle.{
  Ending, all_closed, expired, stopped_by_operator, raised, out_of_fuel, is_empty, close_all,
  close_stale, polled, after_drain, settle_round, rest_a_while, Next, ends, goes_on, after_round,
  settle_step, settle_loop, finish, after_last_drain, settle,
}
use vm_quant_trader.Live.Settle.Listed.{IsListed, SameOrders, drain_same}
use vm_quant_trader.Live.Settle.Rounds.{
  world_IsListed, poll_tasks-IsListed, close_order-IsListed, close_filled-IsListed, drain-IsListed,
}

abbrev pub broker_of : {F : Floats} {W : Type 0} → Next F W → Broker F W
broker_of (ends ending b) = b
broker_of (goes_on n b) = b

abbrev pub is_stopped : Ending → Bool
is_stopped stopped_by_operator = true
is_stopped _ = false

-- What settlement leaves, by the ending of its loop. Every order that is still open has a submitted
-- row. When the call returns and no operator stopped it, no order is open; and when an operator
-- stopped it, the open orders and the ledger are those at the end of the loop, so nothing was
-- closed.
pub record Settled {F : Floats} {W : Type 0} (ending : Ending) (last : Broker F W)
    (out : Result ℕ × Broker F W) : Type 0 where
  pub listed : IsListed out.1
  pub closed : (if is_ok out.0 && not (is_stopped ending) then out.1.open_orders else []) ≡ []
  pub kept_open :
      (if is_stopped ending then out.1.open_orders else last.open_orders) ≡ last.open_orders
  pub kept_ledger : (if is_stopped ending then out.1.ledger else last.ledger) ≡ last.ledger

chosen_IsListed :
    {F : Floats} {W : Type 0} (c : Bool) (n m : Next F W)
    → IsListed (broker_of n)
    → IsListed (broker_of m)
    → IsListed (broker_of (if c then n else m))
chosen_IsListed true n m v v' = v
chosen_IsListed false n m v v' = v'

module _ {F : Floats} {W : Type 0} (venue : Venue F W) where
  after_drain-IsListed :
      (done : List String) (out : Result ℕ × Broker F W)
      → IsListed out.1
      → IsListed (after_drain venue done out).1
  unfolding after_drain
  after_drain-IsListed done (ok n, b) v = close_filled-IsListed venue done b v
  after_drain-IsListed done (err e, b) v = v

  settle_round-IsListed : (b : Broker F W) → IsListed b → IsListed (settle_round venue b).1
  unfolding settle_round polled now
  settle_round-IsListed b v =
      let (done, b1) = polled venue b in
      after_drain-IsListed done (drain_fill_buffer venue b1) (
        drain-IsListed venue b1 (
          poll_tasks-IsListed venue (keys b.open_orders) (now venue b).1
            (world_IsListed b (venue.clock b.world).1 v)))

  rest_IsListed : (b : Broker F W) → IsListed b → IsListed (rest_a_while venue b)
  rest_IsListed b v = elim (Bool-cases (is_empty b.open_orders)) [
    | inl none_open ↦ rw none_open v
    | inr some_open ↦ rw some_open (world_IsListed b (venue.sleep b.world) v)
  ]

  after_round-IsListed :
      (out : Result ℕ × Broker F W) → IsListed out.1 → IsListed (broker_of (after_round venue out))
  after_round-IsListed (ok n, b) v = rest_IsListed b v
  after_round-IsListed (err e, b) v = v

  settle_step-IsListed :
      (deadline : ℕ) (b : Broker F W)
      → IsListed b
      → IsListed (broker_of (settle_step venue deadline b))
  unfolding settle_step
  settle_step-IsListed deadline b v =
      let b1 : Broker F W = record b { world = (venue.clock b.world).1 } in
      let v1 = world_IsListed b (venue.clock b.world).1 v in
      let v2 = after_round-IsListed (settle_round venue b1) (settle_round-IsListed b1 v1) in
      chosen_IsListed (is_empty b.open_orders) (ends all_closed b) _ v (
        chosen_IsListed (leb deadline (engine_time venue b)) (ends expired b1) _ v1 (
          chosen_IsListed (is_kill_switch_engaged (venue.path_exists b1.world) b.guard)
            (ends stopped_by_operator b1) (after_round venue (settle_round venue b1)) v1 v2))

  -- The rounds of the loop keep every open order's row submitted.
  settle_loop-IsListed :
      (fuel deadline n : ℕ) (b : Broker F W)
      → IsListed b
      → IsListed (settle_loop venue fuel deadline n b).2
  unfolding settle_loop
  settle_loop-IsListed zero deadline n b v = v
  settle_loop-IsListed (suc fuel) deadline n b v =
      by_next (settle_step venue deadline b) (settle_step-IsListed deadline b v)
        (λ m b' v'. settle_loop-IsListed fuel deadline (n + m) b' v')
    where
      by_next :
          (next : Next F W)
          → IsListed (broker_of next)
          → ((m : ℕ) (b' : Broker F W)
              → IsListed b'
              → IsListed (settle_loop venue fuel deadline (n + m) b').2)
          → IsListed
              (elim next as (λ x. Ending × ℕ × Broker F W) [
                | ends ending b' ↦ (ending, n, b')
                | goes_on m b' ↦ settle_loop venue fuel deadline (n + m) b'
              ]).2
      by_next (ends ending b') v' ih = v'
      by_next (goes_on m b') v' ih = ih m b' v'

  close_stale-IsListed :
      (ks : List String) (b : Broker F W)
      → IsListed b
      → IsListed (close_all ks (close_stale venue) b)
  unfolding close_all close_stale
  close_stale-IsListed [] b v = v
  close_stale-IsListed (k ∷ ks) b v =
      let reason : Option Note = some (text "Unfilled when the time budget expired.") in
      close_stale-IsListed ks (close_order venue k stale reason b)
        (close_order-IsListed venue k stale reason b v)

  close_head :
      (k : String) (s : OpenOrder F) (d : Dict (OpenOrder F)) (b : Broker F W)
      → b.open_orders ≡ (k, s) ∷ d
      → (close_stale venue k b).open_orders ≡ d
  unfolding close_stale close_order get remove
  close_head k s d b e = ground (arith, e, =ₛ_iff k k)

  -- Closing every key leaves nothing open.
  close_stale_all :
      (d : Dict (OpenOrder F)) (b : Broker F W)
      → b.open_orders ≡ d
      → (close_all (keys d) (close_stale venue) b).open_orders ≡ []
  unfolding close_all keys
  close_stale_all [] b e = e
  close_stale_all ((k, s) ∷ d) b e =
      close_stale_all d (close_stale venue k b) (close_head k s d b e)

  after_last_drain-Settled :
      (ending : Ending) (n : ℕ) (last : Broker F W) (out : Result ℕ × Broker F W)
      → SameOrders last out.1
      → IsListed out.1
      → Settled ending last (after_last_drain venue ending n out)
  unfolding finish
  after_last_drain-Settled ending n last (err e, b) same v = record {
    listed = v;
    closed = refl;
    kept_open = ground (arith, same.open_orders);
    kept_ledger = ground (arith, same.ledger);
  }
  after_last_drain-Settled stopped_by_operator n last (ok m, b) same v = record {
    listed = v;
    closed = refl;
    kept_open = same.open_orders;
    kept_ledger = same.ledger;
  }
  after_last_drain-Settled (raised e) n last (ok m, b) same v = record {
    listed = v;
    closed = refl;
    kept_open = refl;
    kept_ledger = refl;
  }
  after_last_drain-Settled all_closed n last (ok m, b) same v = record {
    listed = close_stale-IsListed (keys b.open_orders) b v;
    closed = close_stale_all b.open_orders b refl;
    kept_open = refl;
    kept_ledger = refl;
  }
  after_last_drain-Settled expired n last (ok m, b) same v = record {
    listed = close_stale-IsListed (keys b.open_orders) b v;
    closed = close_stale_all b.open_orders b refl;
    kept_open = refl;
    kept_ledger = refl;
  }
  after_last_drain-Settled out_of_fuel n last (ok m, b) same v = record {
    listed = close_stale-IsListed (keys b.open_orders) b v;
    closed = close_stale_all b.open_orders b refl;
    kept_open = refl;
    kept_ledger = refl;
  }

  -- Settlement of a broker whose open orders have submitted rows leaves it as `Settled` says: what
  -- is open has a submitted row; nothing is open when the call returns unstopped; and an operator's
  -- stop closes nothing after the loop.
  pub settle-Settled :
      (fuel deadline : ℕ) (b : Broker F W)
      → IsListed b
      → let (ending, n, last) = settle_loop venue fuel deadline 0 b in
        Settled ending last (settle venue fuel deadline b)
  unfolding settle
  settle-Settled fuel deadline b v =
      let (ending, n, last) = settle_loop venue fuel deadline 0 b in
      after_last_drain-Settled ending n last (drain_fill_buffer venue last) (drain_same venue last)
        (drain-IsListed venue last (settle_loop-IsListed fuel deadline 0 b v))
