-- ===== src/BrokerActor/Counters.antt =====
-- What the counters of the broker actor count, which exceptions leave it, and the end of a cycle.
use native.Mathlib.Nat.{zero-add}
use vm_quant_trader.Prelude.{
  ℕ, ◌+◌, ◌≡◌, refl, ap, sym, ◌∙◌, Bool, true, false, Option, none, some, List, [], ◌∷◌, arith,
  if◌then◌else◌, length,
}
use vm_quant_trader.Errors.{
  Method, Result, ok, err, Exc, misrouted, mailbox_closed, continue, ends_the_cycle, is_ok,
}
use vm_quant_trader.Floats.{Floats}
use vm_quant_trader.Messaging.Events.{Message, target_weights, TargetWeights}
use vm_quant_trader.BrokerActor.{Actor, carry_out, post_command, drain_loop, drain, refuse_commands}
use vm_quant_trader.BrokerActor.Modes.{
  drain_step, rest_of, waiting, length-waiting, SameDoor, carry_out-SameDoor,
}

abbrev one_if : Bool → ℕ
one_if b = if b then 1 else 0

module _ {F : Floats} {W : Type 0} (size_and_submit : TargetWeights F → Method W (Unit {0}))
    (on_error : Option (Exc → Method W (Unit {0}))) where
  -- What becomes of a failure: a stop or a wrong address comes out, the rest goes to the handler.
  abbrev pub policy : Result (Unit {0}) × W → Result (Unit {0}) × W
  policy (ok _, w) = (ok tt, w)
  policy (err e, w) =
      if ends_the_cycle e then (err e, w) else elim on_error [ none ↦ (ok tt, w) | some h ↦ h e w ]

  -- A command counts as attempted, and as completed exactly when `size_and_submit` returned; the
  -- outcome and the world are those of the policy on its failures; and the mailbox, the latch and
  -- the mode are left alone.
  pub carry_out_command :
      (c : TargetWeights F) (a : Actor F W)
      → let (r, a') = carry_out size_and_submit on_error (target_weights c) a in
        (a'.attempted ≡ a.attempted + 1)
        × (a'.completed ≡ a.completed + one_if (is_ok (size_and_submit c a.world).0))
        × (r ≡ (policy (size_and_submit c a.world)).0)
        × (a'.world ≡ (policy (size_and_submit c a.world)).1)
        × SameDoor a' a
  unfolding carry_out
  carry_out_command c a = ground arith

  abbrev pub is_command : Message F → Bool
  is_command (target_weights c) = true
  is_command _ = false

  -- Any other message is misrouted: it ends the cycle, and changes nothing.
  pub carry_out_misrouted :
      (m : Message F) (a : Actor F W)
      → is_command m ≡ false
      → carry_out size_and_submit on_error m a ≡ (err misrouted, a)
  unfolding carry_out
  carry_out_misrouted m a h = ground arith

  -- What carrying messages out in their order makes of the world: a command goes to
  -- `size_and_submit`, and its failure to the handler.
  abbrev pub world_after : List (Message F) → W → W
  world_after [] w = w
  world_after (target_weights c ∷ cs) w = world_after cs (policy (size_and_submit c w)).1
  world_after (_ ∷ cs) w = world_after cs w

  -- How many of them return.
  abbrev pub returning : List (Message F) → W → ℕ
  returning [] w = 0
  returning (target_weights c ∷ cs) w =
      one_if (is_ok (size_and_submit c w).0) + returning cs (policy (size_and_submit c w)).1
  returning (_ ∷ cs) w = returning cs w

  -- What a drain of `cs` that returned `n`, after `h` messages, has done to the actor.
  record Emptied (h : ℕ) (cs : List (Message F)) (a : Actor F W) (n : ℕ) (b : Actor F W)
      : Type 0 where
    handled : n ≡ h + length cs
    queue : b.mailbox.queue ≡ []
    refused : b.commands_refused ≡ a.commands_refused
    attempted : b.attempted ≡ a.attempted + length cs
    completed : b.completed ≡ a.completed + returning cs a.world
    world : b.world ≡ world_after cs a.world

  -- What carrying out one message has done to the actor.
  record CarriedOut (m : Message F) (a a' : Actor F W) : Type 0 where
    refused : a'.commands_refused ≡ a.commands_refused
    attempted : a'.attempted ≡ a.attempted + 1
    completed : a'.completed ≡ a.completed + returning (m ∷ []) a.world
    world : a'.world ≡ world_after (m ∷ []) a.world

  carry_out-CarriedOut :
      (m : Message F) (a : Actor F W)
      → is_ok (carry_out size_and_submit on_error m a).0 ≡ true
      → CarriedOut m a (carry_out size_and_submit on_error m a).1
  carry_out-CarriedOut (target_weights c) a returns =
      let (attempted, completed, outcome, world, door) = carry_out_command c a in
      record {
        refused = door.refused;
        attempted = attempted;
        completed = ground (arith, completed);
        world = world;
      }
  carry_out-CarriedOut m a returns = unfold carry_out in cc

  world_after-cons :
      (m : Message F) (cs : List (Message F)) (w : W)
      → world_after (m ∷ cs) w ≡ world_after cs (world_after (m ∷ []) w)
  world_after-cons (target_weights c) cs w = refl
  world_after-cons m cs w = refl

  returning-cons :
      (m : Message F) (cs : List (Message F)) (w : W)
      → returning (m ∷ cs) w ≡ returning (m ∷ []) w + returning cs (world_after (m ∷ []) w)
  returning-cons (target_weights c) cs w = omega arith
  returning-cons m cs w = omega arith

  Emptied-cons :
      (c : Message F) (cs : List (Message F)) (h : ℕ) (a a' : Actor F W) (n : ℕ) (b : Actor F W)
      → CarriedOut c a a'
      → Emptied (h + 1) cs a' n b
      → Emptied h (c ∷ cs) a n b
  Emptied-cons c cs h a a' n b e v = record {
    handled = omega (arith, v.handled);
    queue = v.queue;
    refused = v.refused ∙ e.refused;
    attempted = omega (arith, v.attempted, e.attempted);
    completed = ground (arith, v.completed, e.completed, e.world, returning-cons c cs a.world);
    world = ground (arith, v.world, e.world, world_after-cons c cs a.world);
  }

  empties_step :
      (cs : List (Message F)) (h : ℕ) (r : Result (Unit {0})) (a : Actor F W) (n : ℕ)
      → ((drain_loop size_and_submit on_error (length cs) (h + 1) a).0 ≡ ok n
          → Emptied (h + 1) cs a n (drain_loop size_and_submit on_error (length cs) (h + 1) a).1)
      → (continue (λ _. drain_loop size_and_submit on_error (length cs) (h + 1)) (r, a)).0 ≡ ok n
      → Emptied
          (h + 1)
          cs
          a
          n
          (continue (λ _. drain_loop size_and_submit on_error (length cs) (h + 1)) (r, a)).1
  empties_step cs h (ok _) a n rest e = rest e
  empties_step cs h (err _) a n rest e = cc

  went_on :
      {A B : Type 0} (f : A → Method (Actor F W) B) (r : Result A) (a : Actor F W) (n : B)
      → (continue f (r, a)).0 ≡ ok n
      → is_ok r ≡ true
  went_on f (ok x) a n e = refl
  went_on f (err x) a n e = cc

  drain_loop_empties :
      (cs : List (Message F)) (h : ℕ) (a : Actor F W) (n : ℕ)
      → a.mailbox.queue ≡ waiting cs
      → (drain_loop size_and_submit on_error (length cs) h a).0 ≡ ok n
      → Emptied h cs a n (drain_loop size_and_submit on_error (length cs) h a).1
  drain_loop_empties [] h a n q e = unfold drain_loop in ground arith
  drain_loop_empties (c ∷ cs) h a n q e =
      let a' = rest_of a (waiting cs) in
      let step = drain_step size_and_submit on_error c (waiting cs) (length cs) h a q in
      let door = carry_out-SameDoor size_and_submit on_error c a' in
      let (r, b) = carry_out size_and_submit on_error c a' in
      let returned =
        went_on (λ _. drain_loop size_and_submit on_error (length cs) (h + 1)) r b n
          (ap (λ x. x.0) (sym step) ∙ e) in
      let out = carry_out-CarriedOut c a' returned in
      rw step (
        Emptied-cons c cs h a b n _
          (record {
            refused = out.refused;
            attempted = out.attempted;
            completed = out.completed;
            world = out.world;
          })
          (empties_step cs h r b n
            (drain_loop_empties cs (h + 1) b n (ap (λ m. m.queue) door.mailbox))
            (ap (λ x. x.0) (sym step) ∙ e)))

  -- The end of a cycle: once the latch is tripped and a drain has returned, every command that was
  -- waiting has been carried out, in their order: the world is what `size_and_submit` and, on its
  -- failures, the handler have made of it one command after the other, each is counted as attempted
  -- and those that returned as completed. None is left, and a later command raises and changes
  -- nothing.
  pub drain-refuse_commands :
      (cs : List (Message F)) (a : Actor F W) (n : ℕ) (late : Message F)
      → a.mailbox.queue ≡ waiting cs
      → (drain size_and_submit on_error (refuse_commands a)).0 ≡ ok n
      → let b = (drain size_and_submit on_error (refuse_commands a)).1 in
        (n ≡ length cs)
        × (b.world ≡ world_after cs a.world)
        × (b.attempted ≡ a.attempted + length cs)
        × (b.completed ≡ a.completed + returning cs a.world)
        × (b.mailbox.queue ≡ [])
        × (post_command size_and_submit on_error late b ≡ (err mailbox_closed, b))
  unfolding drain refuse_commands post_command
  drain-refuse_commands cs a n late q e =
      let fits = ap length q ∙ length-waiting cs in
      let v = drain_loop_empties cs 0 (refuse_commands a) n q (rw fits at e) in
      rw fits (v.handled ∙ zero-add _, v.world, v.attempted, v.completed, v.queue, rw v.refused)
