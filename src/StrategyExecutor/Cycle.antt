-- ===== src/StrategyExecutor/Cycle.antt =====
-- The decision of a live cycle (vmtrader/trading/live.py, `_decide_and_submit`): both actors, the
-- barrier, the latch and the drain, in either mode.
use vm_quant_trader.Prelude.{
  ℕ, zero, suc, ◌≡◌, ap, ◌∙◌, refl, Bool, true, false, Option, none, some, arith, ltb,
  if◌then◌else◌, [], ◌∷◌, Bool-cases, inl, inr,
}
use vm_quant_trader.Errors.{Method, Result, ok, err, Exc, ends_the_cycle, continue, ◌>>◌}
use vm_quant_trader.Floats.{Floats}
use vm_quant_trader.Messaging.Events.{
  Message, rebalance_due, target_weights, TargetWeights, OrderFilled,
}
use vm_quant_trader.Messaging.Mailbox.{
  new as new_mailbox, post as post_message, put, take, close, depth,
}
use vm_quant_trader.BrokerActor.{
  Actor, new as new_actor, post_command, carry_out, dispatch as dispatch_command, refuse_commands,
  drain, drain_loop, broker_mailbox_maxsize,
}
use vm_quant_trader.StrategyExecutor.{
  Executor, new_executor, start, post_event, stop, run, handle_reporting_errors, dispatch, end_with,
}

module _ {F : Floats} {W : Type 0} (decide : ℕ → Method W (TargetWeights F))
    (on_fill : OrderFilled F → Method W (Unit {0})) (log : Exc → W → W)
    (size_and_submit : TargetWeights F → Method W (Unit {0})) where
  -- `_log_error(error)`
  unfoldable pub log_error : Exc → Method W (Unit {0})
  log_error e w = (ok tt, log e w)

  -- `_actors()`
  unfoldable pub actors : Bool → W → Result (Executor F W)
  unfolding new_executor new_actor
  actors synchronous world = new_executor synchronous (new_actor synchronous world)

  -- The body of the `try`.
  unfoldable pub announce : ℕ → Method (Executor F W) (Unit {0})
  unfolding start post_event log_error
  announce now x =
      let event =
        post_event decide on_fill (some log_error) size_and_submit
          (rebalance_due (record { dt = now })) in
      if x.synchronous then event x else (start >> event) x

  -- `return broker_actor.completed > 0`, after the drain
  abbrev pub verdict : Result ℕ × Actor F W → Result Bool × W
  verdict (err e, a) = (err e, a.world)
  verdict (ok n, a) = (ok (ltb 0 a.completed), a.world)

  -- From the latch on: what ended the executor, or the drain and whether a command was completed.
  unfoldable pub collect : Option Exc → Actor F W → Result Bool × W
  unfolding drain log_error
  collect (some e) a = (err e, a.world)
  collect none a = verdict (drain size_and_submit (some log_error) a)

  unfoldable pub after_barrier : Result (Unit {0}) → Executor F W → Result Bool × W
  unfolding collect refuse_commands
  after_barrier (err e) x = (err e, x.broker.world)
  after_barrier (ok _) x = collect x.ended_by (refuse_commands x.broker)

  abbrev over_barrier : ℕ → Result (Unit {0}) × Executor F W → Result Bool × W
  unfolding stop after_barrier log_error
  over_barrier f (r, x) =
      after_barrier r (stop decide on_fill (some log_error) size_and_submit f x).1

  -- `_decide_and_submit(now)`. The strategy's thread gets `f` rounds of its loop before the
  -- barrier's time is up.
  unfoldable pub decide_and_submit : Bool → ℕ → ℕ → Method W Bool
  unfolding actors announce over_barrier
  decide_and_submit synchronous f now w = elim (actors synchronous w) [
    | err e ↦ (err e, w)
    | ok x ↦ over_barrier f (announce now x)
  ]

  -- What a failure comes to: a stop or a wrong address is raised, the rest is logged.
  abbrev failed : Exc → W → Result Bool × W
  failed e w = if ends_the_cycle e then (err e, w) else (ok false, log e w)

  abbrev submitted : Result (Unit {0}) × W → Result Bool × W
  submitted (ok _, w) = (ok true, w)
  submitted (err e, w) = failed e w

  abbrev decided : Result (TargetWeights F) × W → Result Bool × W
  decided (ok command, w) = submitted (size_and_submit command w)
  decided (err e, w) = failed e w

  -- The promise: decide, and if there is a decision, size it and submit.
  unfoldable pub promised : ℕ → Method W Bool
  unfolding ends_the_cycle
  promised now w = decided (decide now w)

  run_at_sentinel :
      (f : ℕ) (x : Executor F W)
      → x.mailbox.queue ≡ none ∷ []
      → let x' = run decide on_fill (some log_error) size_and_submit f x in
        (x'.ended_by ≡ x.ended_by) × (x'.broker ≡ x.broker)
  unfolding run take
  run_at_sentinel zero x e = (refl, refl)
  run_at_sentinel (suc f) x e = rw e (refl, refl)

  inline_submitted :
      (f now : ℕ) (w v : W) (command : TargetWeights F) (out : Result (Unit {0}) × W)
      → decide now w ≡ (ok command, v)
      → size_and_submit command v ≡ out
      → decide_and_submit true f now w ≡ promised now w
  unfolding decide_and_submit promised actors new_executor new_actor announce post_event
      handle_reporting_errors dispatch post_command carry_out dispatch_command stop collect
      after_barrier drain drain_loop take close depth refuse_commands new_mailbox log_error end_with
  inline_submitted f now w v command (ok x, u) d e = rw (d, e) refl
  inline_submitted f now w v command (err x, u) d e = elim (Bool-cases (ends_the_cycle x)) [
    | inl ends ↦ rw (d, e, ends, ends) refl
    | inr goes_on ↦ rw (d, e, goes_on) refl
  ]

  inline_decided :
      (f now : ℕ) (w : W) (out : Result (TargetWeights F) × W)
      → decide now w ≡ out
      → decide_and_submit true f now w ≡ promised now w
  unfolding decide_and_submit promised actors new_executor new_actor announce post_event
      handle_reporting_errors dispatch post_command carry_out dispatch_command stop collect
      after_barrier drain drain_loop take close depth refuse_commands new_mailbox log_error end_with
  inline_decided f now w (ok command, v) d =
      inline_submitted f now w v command (size_and_submit command v) d refl
  inline_decided f now w (err x, u) d = elim (Bool-cases (ends_the_cycle x)) [
    | inl ends ↦ rw (d, ends) refl
    | inr goes_on ↦ rw (d, goes_on) refl
  ]

  closed-handle_reporting_errors :
      (event : Message F) (x : Executor F W)
      → x.mailbox.closed ≡ true
      → (handle_reporting_errors decide on_fill (some log_error) size_and_submit event x).1.mailbox
        ≡ x.mailbox
  unfolding handle_reporting_errors dispatch end_with close log_error
  closed-handle_reporting_errors event x h = ground (arith, h)

  -- One round is enough: the next finds the sentinel.
  more_rounds :
      (f now : ℕ) (w : W) → decide_and_submit false (suc f) now w ≡ decide_and_submit false 1 now w
  unfolding decide_and_submit actors new_executor new_actor announce start post_event post_message
      put stop run take close after_barrier new_mailbox
  more_rounds f now w =
      let event = rebalance_due (record { dt = now }) in
      let x : Executor F W = record {
        mailbox = close (put event (new_mailbox "strategy-executor" 0));
        broker = new_actor false w;
        synchronous = false;
        start_called = true;
        alive = true;
        ended_by = none;
      } in
      let front : Executor F W = record x { mailbox = record x.mailbox { queue = none ∷ [] } } in
      let same = closed-handle_reporting_errors event front refl in
      let x' =
        (handle_reporting_errors decide on_fill (some log_error) size_and_submit event front).1 in
      let (ended, broker) = run_at_sentinel f x' (ap (λ m. m.queue) same) in rw (ended, broker) refl

  -- What carrying a command out leaves for the verdict.
  verdict-carry_out :
      (command : TargetWeights F) (a : Actor F W) (out : Result (Unit {0}) × W)
      → a.completed ≡ 0
      → size_and_submit command a.world ≡ out
      → verdict (
          continue
            (λ _ a'. (ok 1, a'))
            (carry_out size_and_submit (some log_error) (target_weights command) a))
        ≡ submitted out
  unfolding carry_out dispatch_command log_error
  verdict-carry_out command a (ok x, u) none_yet e = ground (arith, e, none_yet)
  verdict-carry_out command a (err x, u) none_yet e = ground (arith, e, none_yet)

  drain_one :
      (command : TargetWeights F) (a : Actor F W)
      → a.mailbox.queue ≡ some (target_weights command) ∷ []
      → drain size_and_submit (some log_error) a
        ≡ continue
            (λ _ a'. (ok 1, a'))
            (carry_out size_and_submit
              (some log_error)
              (target_weights command)
              (record a { mailbox = record a.mailbox { queue = [] } }))
  unfolding drain drain_loop take depth
  drain_one command a q = rw q refl

  -- Draining the one command.
  collected :
      (command : TargetWeights F) (a : Actor F W)
      → a.mailbox.queue ≡ some (target_weights command) ∷ []
      → a.completed ≡ 0
      → collect none a ≡ submitted (size_and_submit command a.world)
  unfolding collect
  collected command a q none_yet = rw (drain_one command a q) (
      verdict-carry_out command (record a { mailbox = record a.mailbox { queue = [] } })
        (size_and_submit command a.world) none_yet refl)

  queued_decided :
      (now : ℕ) (w : W) (out : Result (TargetWeights F) × W)
      → decide now w ≡ out
      → decide_and_submit false 1 now w ≡ promised now w
  unfolding decide_and_submit promised actors new_executor new_actor announce start post_event
      post_message put handle_reporting_errors dispatch post_command stop run after_barrier take
      close refuse_commands new_mailbox log_error end_with
  queued_decided now w (ok command, v) d =
      let holding : Actor F W = record {
        mailbox = put (target_weights command) (new_mailbox "broker" broker_mailbox_maxsize);
        attempted = 0;
        completed = 0;
        commands_refused = true;
        synchronous = false;
        world = v;
      } in
      rw d (collected command holding refl refl)
  queued_decided now w (err x, u) d = elim (Bool-cases (ends_the_cycle x)) [
    | inl ends ↦ unfold collect in rw (d, ends) refl
    | inr goes_on ↦
        unfold collect in unfold drain in unfold drain_loop in unfold depth in rw (d, goes_on) refl
  ]

  -- A live cycle in which the strategy's thread gets as far as its one event before the barrier's
  -- time is up does, in either mode, what its specification says: it asks for a decision, and if
  -- there is one, has it sized and submitted, on the same world and with the same failures: a stop
  -- and a wrong address are raised, any other failure is logged, and the answer is that something
  -- was traded exactly when both returned.
  pub decide_and_submit-promised :
      (synchronous : Bool) (f now : ℕ) (w : W)
      → decide_and_submit synchronous (suc f) now w ≡ promised now w
  decide_and_submit-promised true f now w = inline_decided (suc f) now w (decide now w) refl
  decide_and_submit-promised false f now w =
      more_rounds f now w ∙ queued_decided now w (decide now w) refl

  -- A thread that gets nowhere in time leaves the world alone, and nothing is traded.
  too_slow : (now : ℕ) (w : W) → decide_and_submit false 0 now w ≡ (ok false, w)
  unfolding decide_and_submit actors new_executor new_actor announce start post_event post_message
      put stop run take close after_barrier new_mailbox collect refuse_commands drain drain_loop
      depth
  too_slow now w = refl
