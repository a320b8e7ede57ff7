-- ===== src/StrategyExecutor.antt =====
-- The strategy actor (vmtrader/alpha_model/base_strategy_executor.py): a mailbox of events, the
-- strategy behind it, and the broker actor that its decisions go to. The checks of the constructor,
-- which look at attributes by name, are the types here.
pub mod Cycle
mod Tests
use vm_quant_trader.Prelude.{
  ℕ, zero, suc, ◌+◌, Bool, true, false, not, Option, none, some, List, [], ◌∷◌, if◌then◌else◌,
}
use vm_quant_trader.Errors.{
  Method, Result, ok, err, Exc, bad, misrouted, not_consuming, executor_mode, stops_itself,
  ends_the_cycle, continue, pure, raise, ◌>>=◌, ◌>>◌,
}
use vm_quant_trader.Floats.{Floats}
use vm_quant_trader.Messaging.Events.{
  Message, target_weights, rebalance_due, order_filled, TargetWeights, OrderFilled,
}
use vm_quant_trader.Messaging.Mailbox.{
  Mailbox, new as new_mailbox, post as post_message, take as take_message, close, depth,
}
use vm_quant_trader.BrokerActor.{Actor, post_command}

-- What the callbacks of both actors read and write is the world of the broker actor.
pub record Executor (F : Floats) (W : Type 0) : Type 0 where
  pub mailbox : Mailbox (Message F)
  pub broker : Actor F W
  pub synchronous : Bool
  pub start_called : Bool
  -- `is_alive()`
  pub alive : Bool
  pub ended_by : Option Exc

module _ {F : Floats} {W : Type 0} where
  -- `BaseStrategyExecutor(…)`: the two actors have the same mode.
  unfoldable pub new_executor : Bool → Actor F W → Result (Executor F W)
  unfolding new_mailbox
  new_executor synchronous broker =
      let same = if synchronous then broker.synchronous else not broker.synchronous in
      if same
      then ok (record {
        mailbox = new_mailbox "strategy-executor" 0;
        broker = broker;
        synchronous = synchronous;
        start_called = false;
        alive = false;
        ended_by = none;
      })
      else err (bad executor_mode)

  -- `start()`
  unfoldable pub start : Method (Executor F W) (Unit {0})
  start x =
      if x.synchronous
      then (err (bad executor_mode), x)
      else (ok tt, record x { start_called = true; alive = true })

  -- A callback of the strategy's, on the world.
  abbrev pub on_world {κ} : {A : Type κ} → Method W A → Method (Executor F W) A
  on_world f x =
      let (r, w) = f x.broker.world in (r, record x { broker = record x.broker { world = w } })

  abbrev pub on_broker {κ} : {A : Type κ} → Method (Actor F W) A → Method (Executor F W) A
  on_broker f x = let (r, a) = f x.broker in (r, record x { broker = a })

  -- `self._ended_by = signal; self._mailbox.close()`, or a raise where the caller can act.
  unfoldable pub end_with : Exc → Method (Executor F W) (Unit {0})
  unfolding close
  end_with e x =
      if x.synchronous
      then (err e, x)
      else (ok tt, record x { ended_by = some e; mailbox = close x.mailbox })

module _ {F : Floats} {W : Type 0} (decide : ℕ → Method W (TargetWeights F))
    (on_fill : OrderFilled F → Method W (Unit {0})) (on_error : Option (Exc → Method W (Unit {0})))
    (size_and_submit : TargetWeights F → Method W (Unit {0})) where
  -- `_dispatch(event)`
  unfoldable pub dispatch : Message F → Method (Executor F W) (Unit {0})
  unfolding post_command
  dispatch (rebalance_due e) = do
    command ← on_world (decide e.dt)
    on_broker (post_command size_and_submit on_error (target_weights command))
  dispatch (order_filled e) = on_world (on_fill e)
  dispatch _ = raise misrouted

  -- The second `try` of `_handle_reporting_errors`.
  abbrev escalate : Result (Unit {0}) → Method (Executor F W) (Unit {0})
  unfolding end_with
  escalate (ok _) = pure tt
  escalate (err e) = end_with e

  abbrev tell : Option (Exc → Method W (Unit {0})) → Exc → Method (Executor F W) (Unit {0})
  tell none e x = (ok tt, x)
  tell (some handler) e x = let (r, x') = on_world (handler e) x in escalate r x'

  -- The `except` clauses of `_handle_reporting_errors`.
  abbrev handle : Result (Unit {0}) → Method (Executor F W) (Unit {0})
  unfolding end_with
  handle (ok _) = pure tt
  handle (err e) = if ends_the_cycle e then end_with e else tell on_error e

  -- `_handle_reporting_errors(event)`
  unfoldable pub handle_reporting_errors : Message F → Method (Executor F W) (Unit {0})
  unfolding dispatch end_with ends_the_cycle
  handle_reporting_errors event x = let (r, x') = dispatch event x in handle r x'

  -- `post_event(event)`
  unfoldable pub post_event : Message F → Method (Executor F W) (Unit {0})
  unfolding handle_reporting_errors post_message
  post_event event x =
      if x.synchronous
      then handle_reporting_errors event x
      else if not x.alive
      then (err (bad not_consuming), x)
      else let (r, m) = post_message (some event) x.mailbox in (r, record x { mailbox = m })

  -- `run()`, with fuel for its rounds: until the sentinel, or until the mailbox is empty and the
  -- thread waits.
  unfoldable pub run : ℕ → Executor F W → Executor F W
  unfolding take_message handle_reporting_errors
  run zero x = x
  run (suc f) x =
      let (item, m) = take_message x.mailbox in
      elim item [
        | none ↦ x
        | some none ↦ record x { mailbox = m; alive = false }
        | some (some event) ↦ run f (handle_reporting_errors event (record x { mailbox = m })).1
      ]

  -- `stop(timeout)` from another thread. Until the join returns the executor's thread runs, for as
  -- many rounds as it gets.
  unfoldable pub stop : ℕ → Executor F W → Bool × Executor F W
  unfolding close run
  stop f x =
      let closed = record x { mailbox = close x.mailbox } in
      if x.synchronous
      then (true, closed)
      else if not x.start_called
      then (true, closed)
      else let x' = run f closed in (not x'.alive, x')
