-- ===== src/BrokerActor.antt =====
-- The broker actor (vmtrader/broker/actor.py): the mailbox in front of the accounting.
pub mod Modes
pub mod Counters
mod Tests
use vm_quant_trader.Prelude.{
  ℕ, zero, suc, ◌+◌, Bool, true, false, Option, none, some, List, [], ◌∷◌, ◌==◌, if◌then◌else◌,
}
use vm_quant_trader.Errors.{
  Method, Result, ok, err, Exc, misrouted, mailbox_closed, ends_the_cycle, continue, pure, raise,
  modify, ◌>>=◌, ◌>>◌,
}
use vm_quant_trader.Floats.{Floats}
use vm_quant_trader.Messaging.Events.{Message, target_weights, TargetWeights}
use vm_quant_trader.Messaging.Mailbox.{
  Mailbox, new as new_mailbox, post as post_event, take as take_event, depth,
}

abbrev pub broker_mailbox_maxsize : ℕ
broker_mailbox_maxsize = 200

-- `world` is all that the callbacks `size_and_submit` and `on_error` read and write.
pub record Actor (F : Floats) (W : Type 0) : Type 0 where
  pub mailbox : Mailbox (Message F)
  pub attempted : ℕ
  pub completed : ℕ
  pub commands_refused : Bool
  pub synchronous : Bool
  pub world : W

module _ {F : Floats} {W : Type 0} where
  -- `BrokerActor(size_and_submit, synchronous, on_error)`
  unfoldable pub new : Bool → W → Actor F W
  unfolding new_mailbox
  new synchronous world = record {
    mailbox = new_mailbox "broker" broker_mailbox_maxsize;
    attempted = 0;
    completed = 0;
    commands_refused = false;
    synchronous = synchronous;
    world = world;
  }

  -- A callback runs on the world, whatever its outcome.
  abbrev pub call : Method W (Unit {0}) → Method (Actor F W) (Unit {0})
  call f a = let (r, w) = f a.world in (r, record a { world = w })

  -- `refuse_commands()`
  unfoldable pub refuse_commands : Actor F W → Actor F W
  refuse_commands a = record a { commands_refused = true }

  abbrev pub on_mailbox {κ} : {A : Type κ} → Method (Mailbox (Message F)) A → Method (Actor F W) A
  on_mailbox f a = let (r, m) = f a.mailbox in (r, record a { mailbox = m })

module _ {F : Floats} {W : Type 0} (size_and_submit : TargetWeights F → Method W (Unit {0}))
    (on_error : Option (Exc → Method W (Unit {0}))) where
  -- `_dispatch(message)`
  unfoldable pub dispatch : Message F → Method (Actor F W) (Unit {0})
  dispatch (target_weights c) = do
    modify (λ a. record a { attempted = a.attempted + 1 })
    call (size_and_submit c)
    modify (λ a. record a { completed = a.completed + 1 })
  dispatch _ = raise misrouted

  abbrev report : Option (Exc → Method W (Unit {0})) → Exc → Method (Actor F W) (Unit {0})
  report none e = pure tt
  report (some handler) e = call (handler e)

  -- The `except` clauses of `_carry_out_reporting_errors`.
  abbrev handle : Result (Unit {0}) → Method (Actor F W) (Unit {0})
  handle (ok _) = pure tt
  handle (err e) = if ends_the_cycle e then raise e else report on_error e

  -- `_carry_out_reporting_errors(message)`
  unfoldable pub carry_out : Message F → Method (Actor F W) (Unit {0})
  unfolding dispatch ends_the_cycle
  carry_out message a = let (r, a') = dispatch message a in handle r a'

  -- `post_command(command)`
  unfoldable pub post_command : Message F → Method (Actor F W) (Unit {0})
  unfolding carry_out post_event
  post_command command a =
      if a.commands_refused
      then (err mailbox_closed, a)
      else if a.synchronous
      then carry_out command a
      else on_mailbox (post_event (some command)) a

  -- One round of `drain` after `take`: whether to go on.
  abbrev receive : Option (Option (Message F)) → Option (Message F)
  receive (some (some message)) = some message
  receive (some none) = none
  receive none = none

  -- The loop of `drain`, with fuel for its rounds. Nobody posts meanwhile.
  unfoldable pub drain_loop : ℕ → ℕ → Method (Actor F W) ℕ
  unfolding take_event
  drain_loop zero handled a = (ok handled, a)
  drain_loop (suc f) handled a =
      let (item, m) = take_event a.mailbox in
      elim (receive item) [
        | none ↦ (ok handled, record a { mailbox = m })
        | some message ↦
            continue (λ _. drain_loop f (handled + 1))
              (carry_out message (record a { mailbox = m }))
      ]

  -- `drain()`
  unfoldable pub drain : Method (Actor F W) ℕ
  unfolding drain_loop carry_out take_event depth
  drain a = drain_loop (depth a.mailbox) 0 a
