-- ===== src/BrokerActor/Modes.antt =====
-- The two modes of the broker actor do the same work: a list of commands carried out one by one on
-- the caller's thread, or queued and drained.
use vm_quant_trader.Prelude.{
  ℕ, suc, ◌+◌, ◌≤◌, ◌≡◌, refl, ap, ◌∙◌, true, false, Option, none, some, List, [], ◌∷◌, ◌++◌, map,
  arith, length, length-append, append-nil, append_assoc, sym,
}
use vm_quant_trader.Errors.{Method, Result, ok, err, Exc, continue, pure, ◌>>=◌, ◌>>◌}
use vm_quant_trader.Floats.{Floats}
use vm_quant_trader.Messaging.Events.{Message, TargetWeights}
use vm_quant_trader.Messaging.Mailbox.{Mailbox, put, take}
use vm_quant_trader.BrokerActor.{
  Actor, new, carry_out, post_command, drain_loop, drain, broker_mailbox_maxsize,
}

-- What an outcome raises.
abbrev pub raised {ℓ} : {A : Type ℓ} → Result A → Option Exc
raised (ok a) = none
raised (err e) = some e

take_front {ℓ} :
    {E : Type ℓ} (m : Mailbox E) (x : Option E) (q : List (Option E))
    → m.queue ≡ x ∷ q
    → take m ≡ (some x, record m { queue = q })
unfolding take
take_front m x q e = rw e

-- Commands in a queue.
abbrev pub waiting {ℓ} : {E : Type ℓ} → List E → List (Option E)
waiting = map some

pub length-waiting {ℓ} : {E : Type ℓ} (cs : List E) → length (waiting cs) ≡ length cs
length-waiting [] = refl
length-waiting (c ∷ cs) = ap suc (length-waiting cs)

module _ {F : Floats} {W : Type 0} where
  -- What is left when the front of the queue has been taken.
  abbrev pub rest_of : Actor F W → List (Option (Message F)) → Actor F W
  rest_of a q = record a { mailbox = record a.mailbox { queue = q } }

  -- The same work was done, whatever the mode and the mailbox.
  pub record SameWork (a b : Actor F W) : Type 0 where
    pub world : a.world ≡ b.world
    pub attempted : a.attempted ≡ b.attempted
    pub completed : a.completed ≡ b.completed

  -- What carrying a message out leaves alone.
  pub record SameDoor (a b : Actor F W) : Type 0 where
    pub mailbox : a.mailbox ≡ b.mailbox
    pub refused : a.commands_refused ≡ b.commands_refused
    pub synchronous : a.synchronous ≡ b.synchronous

module _ {F : Floats} {W : Type 0} (size_and_submit : TargetWeights F → Method W (Unit {0}))
    (on_error : Option (Exc → Method W (Unit {0}))) where
  pub carry_out-SameDoor :
      (m : Message F) (a : Actor F W) → SameDoor (carry_out size_and_submit on_error m a).1 a
  unfolding carry_out
  carry_out-SameDoor m a = ground arith

  carry_out-SameWork :
      (m : Message F) (a b : Actor F W)
      → SameWork a b
      → ((carry_out size_and_submit on_error m a).0 ≡ (carry_out size_and_submit on_error m b).0)
        × SameWork
            (carry_out size_and_submit on_error m a).1
            (carry_out size_and_submit on_error m b).1
  unfolding carry_out
  carry_out-SameWork m a b h = ground arith

  -- The commands of a strategy, posted one after the other; a raise stops it.
  unfoldable pub post_all : List (Message F) → Method (Actor F W) (Unit {0})
  post_all [] = pure tt
  post_all (c ∷ cs) = post_command size_and_submit on_error c >> post_all cs

  -- What a caller of the actor can compare: what was raised, and the work done.
  abbrev Agree : {A B : Type 0} → Result A × Actor F W → Result B × Actor F W → Type 0
  Agree (r, a) (r', b) = (raised r ≡ raised r') × SameWork a b

  -- One command on each side, given what carrying it out gave.
  follow :
      (cs : List (Message F)) (h : ℕ) (r r' : Result (Unit {0})) (a b : Actor F W)
      → ((r ≡ ok tt) → Agree (post_all cs a) (drain_loop size_and_submit on_error (length cs) h b))
      → r ≡ r'
      → SameWork a b
      → Agree
          (continue (λ _. post_all cs) (r, a))
          (continue (λ _. drain_loop size_and_submit on_error (length cs) h) (r', b))
  follow cs h (ok x) (ok y) a b rest e s = rest refl
  follow cs h (err x) (err y) a b rest e s = (cc, s)
  follow cs h (ok x) (err y) a b rest e s = cc
  follow cs h (err x) (ok y) a b rest e s = cc

  pub drain_step :
      (c : Message F) (q : List (Option (Message F))) (f h : ℕ) (b : Actor F W)
      → b.mailbox.queue ≡ some c ∷ q
      → drain_loop size_and_submit on_error (suc f) h b
        ≡ continue
            (λ _. drain_loop size_and_submit on_error f (h + 1))
            (carry_out size_and_submit on_error c (rest_of b q))
  unfolding drain_loop
  drain_step c q f h b e =
      rw (take_front b.mailbox (some c) q e, drain_loop) (rw (take_front b.mailbox (some c) q e))

  post_all_step :
      (c : Message F) (cs : List (Message F)) (a : Actor F W)
      → a.synchronous ≡ true
      → a.commands_refused ≡ false
      → post_all (c ∷ cs) a ≡ continue (λ _. post_all cs) (carry_out size_and_submit on_error c a)
  unfolding post_all post_command
  post_all_step c cs a sync admitted = rw (admitted, sync)

  drain_follows :
      (cs : List (Message F)) (h : ℕ) (a b : Actor F W)
      → SameWork a b
      → a.synchronous ≡ true
      → a.commands_refused ≡ false
      → b.mailbox.queue ≡ waiting cs
      → Agree (post_all cs a) (drain_loop size_and_submit on_error (length cs) h b)
  unfolding post_all drain_loop
  drain_follows [] h a b s sync admitted q = (refl, s)
  drain_follows (c ∷ cs) h a b s sync admitted q =
      let b' = rest_of b (waiting cs) in
      let (same, work) =
        carry_out-SameWork c a b'
          (record { world = s.world; attempted = s.attempted; completed = s.completed }) in
      let door = carry_out-SameDoor c a in
      let door' = carry_out-SameDoor c b' in
      let (r, a1) = carry_out size_and_submit on_error c a in
      let (r', b1) = carry_out size_and_submit on_error c b' in
      rw (post_all_step c cs a sync admitted, drain_step c (waiting cs) (length cs) h b q)
        (follow cs (h + 1) r r' a1 b1
          (λ _.
            drain_follows cs (h + 1) a1 b1 work (door.synchronous ∙ sync) (door.refused ∙ admitted)
              (ap (λ m. m.queue) door'.mailbox))
          same work)

  -- An actor whose commands wait in its mailbox.
  record Queues (a : Actor F W) (n : ℕ) : Type 0 where
    queued : a.synchronous ≡ false
    admitted : a.commands_refused ≡ false
    unclosed : a.mailbox.closed ≡ false
    cap : a.mailbox.maxsize ≡ broker_mailbox_maxsize
    room : length a.mailbox.queue + n ≤ broker_mailbox_maxsize

  -- With room for it, a command goes to the back of the queue and nothing else happens.
  post-Queues :
      (c : Message F) (n : ℕ) (a : Actor F W)
      → Queues a (suc n)
      → post_command size_and_submit on_error c a ≡ (ok tt, record a { mailbox = put c a.mailbox })
  unfolding post_command
  post-Queues c n a h = ground arith

  put-Queues :
      (c : Message F) (n : ℕ) (a : Actor F W)
      → Queues a (suc n)
      → Queues (record a { mailbox = put c a.mailbox }) n
  unfolding put
  put-Queues c n a h = ground (arith, length-append a.mailbox.queue (some c ∷ []))

  new-Queues :
      (cs : List (Message F)) (w : W)
      → length cs ≤ broker_mailbox_maxsize
      → Queues (new false w) (length cs)
  unfolding new
  new-Queues cs w fits = ground arith

  post_all-Queues :
      (cs : List (Message F)) (a : Actor F W)
      → Queues a (length cs)
      → let (r, b) = post_all cs a in
        (r ≡ ok tt) × SameWork a b × (b.mailbox.queue ≡ a.mailbox.queue ++ waiting cs)
  unfolding post_all
  post_all-Queues [] a h =
      (refl, record { world = refl; attempted = refl; completed = refl }, sym (append-nil _))
  post_all-Queues (c ∷ cs) a h =
      let b = record a { mailbox = put c a.mailbox } in
      let (fine, work, queue) = post_all-Queues cs b (put-Queues c (length cs) a h) in
      rw (post-Queues c (length cs) a h) (
        fine,
        record { world = work.world; attempted = work.attempted; completed = work.completed },
        queue ∙ put_back c cs a,
      )
    where
      put_back :
          (c : Message F) (cs : List (Message F)) (a : Actor F W)
          → (put c a.mailbox).queue ++ waiting cs ≡ a.mailbox.queue ++ waiting (c ∷ cs)
      put_back c cs a = unfold put in append_assoc a.mailbox.queue (some c ∷ []) (waiting cs)

  drain_all_follows :
      (cs : List (Message F)) (a b : Actor F W)
      → SameWork a b
      → a.synchronous ≡ true
      → a.commands_refused ≡ false
      → b.mailbox.queue ≡ waiting cs
      → Agree (post_all cs a) (drain size_and_submit on_error b)
  unfolding drain
  drain_all_follows cs a b s sync admitted q =
      rw (ap length q ∙ length-waiting cs) (drain_follows cs 0 a b s sync admitted q)

  after_posts :
      (x : Result (Unit {0}) × Actor F W) (r : Result (Unit {0})) (b : Actor F W)
      → r ≡ ok tt
      → Agree x (drain size_and_submit on_error b)
      → Agree x (continue (λ _. drain size_and_submit on_error) (r, b))
  after_posts x (ok _) b e h = h
  after_posts x (err _) b e h = cc

  -- A strategy that posts at most 200 commands does the same work in both modes, and the same
  -- exception, if any, comes out: of the post itself when the actor is synchronous, and of the
  -- drain when the commands are queued.
  pub post_all-modes :
      (cs : List (Message F)) (w : W)
      → length cs ≤ broker_mailbox_maxsize
      → let (r, a) = post_all cs (new true w) in
        let (r', b) = (post_all cs >>= λ _. drain size_and_submit on_error) (new false w) in
        (raised r ≡ raised r') × SameWork a b
  unfolding new
  post_all-modes cs w fits =
      let (fine, work, queue) = post_all-Queues cs (new false w) (new-Queues cs w fits) in
      let (r, b) = post_all cs (new false w) in
      after_posts (post_all cs (new true w)) r b fine (
        drain_all_follows cs (new true w) b
          (record { world = work.world; attempted = work.attempted; completed = work.completed })
          refl refl queue)
