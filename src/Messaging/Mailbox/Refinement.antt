-- ===== src/Messaging/Mailbox/Refinement.antt =====
-- The mailbox keeps its promise (Spec): every reply of every schedule is the promised one.
use mathlib.Core.List.{map-append}
use vm_quant_trader.Prelude.{
  ℕ, zero, suc, ◌-◌, ◌≤◌, ◌≡◌, refl, ap, ◌∙◌, String, true, false, not, ◌&&◌, Option, none, some,
  List, [], ◌∷◌, ◌++◌, map, append-nil, arith, if◌then◌else◌, length, length-append,
}
use vm_quant_trader.Messaging.Mailbox.{
  Mailbox, new, post, take, Op, posts, takes, closes, Reply, step, run,
}
use vm_quant_trader.Messaging.Mailbox.Spec.{Promise, drop, fresh, deliver, promised, promised_run}

module _ {ℓ} {E : Type ℓ} where
  -- The sentinel waits behind the events until the consumer has been told.
  abbrev sentinel : Promise E → List (Option E)
  sentinel p = if p.closed && not p.told then none ∷ [] else []

  pub record Refines (m : Mailbox E) (p : Promise E) : Type ℓ where
    pub limit : m.maxsize ≡ p.limit
    pub queue : m.queue ≡ map some (drop p.taken p.accepted) ++ sentinel p
    pub posted : m.posted ≡ length p.accepted
    pub lost : m.dropped ≡ p.lost
    pub closed : m.closed ≡ p.closed
    pub taken : p.taken ≤ length p.accepted
    pub told : p.told ≡ true → p.closed ≡ true

  drop-append : (n : ℕ) (xs ys : List E) → n ≤ length xs → drop n (xs ++ ys) ≡ drop n xs ++ ys
  drop-append zero xs ys h = refl
  drop-append (suc n) [] ys h = elim h [ ]
  drop-append (suc n) (x ∷ xs) ys h = drop-append n xs ys (omega arith)

  length-drop : (n : ℕ) (xs : List E) → length (drop n xs) ≡ length xs - n
  length-drop zero xs = omega arith
  length-drop (suc n) [] = omega arith
  length-drop (suc n) (x ∷ xs) = omega (arith, length-drop n xs)

  drop-suc :
      (n : ℕ) (xs : List E) {x : E} {w : List E}
      → drop n xs ≡ x ∷ w
      → (drop (suc n) xs ≡ w) × (suc n ≤ length xs)
  drop-suc zero [] h = cc
  drop-suc zero (x ∷ xs) h = (cc, omega arith)
  drop-suc (suc n) [] h = cc
  drop-suc (suc n) (x ∷ xs) h = let (a, b) = drop-suc n xs h in (a, omega arith)

  AfterStep : Op E → Mailbox E → Promise E → Type ℓ
  AfterStep op m p = ((step op m).0 ≡ (promised op p).0) × Refines (step op m).1 (promised op p).1

  take-Refines :
      (w : List E) {m : Mailbox E} {p : Promise E}
      → drop p.taken p.accepted ≡ w
      → Refines m p
      → (Reply.took (take m).0 ≡ (deliver w p).0) × Refines (take m).1 (deliver w p).1
  unfolding take
  take-Refines [] {m} {p} e h = ground arith
  take-Refines (x ∷ w) {m} {p} e h = ground (arith, drop-suc p.taken p.accepted e)

  open_queue :
      {m : Mailbox E} {p : Promise E}
      → Refines m p
      → p.closed ≡ false
      → m.queue ≡ map some (drop p.taken p.accepted)
  open_queue {m} {p} h e = h.queue ∙ rw e (append-nil _)

  length-map-some : (xs : List E) → length {A = Option E} (map some xs) ≡ length xs
  length-map-some [] = refl
  length-map-some (x ∷ xs) = ap suc (length-map-some xs)

  open_depth :
      {m : Mailbox E} {p : Promise E}
      → Refines m p
      → p.closed ≡ false
      → length m.queue ≡ length p.accepted - p.taken
  open_depth {m} {p} h e =
      ap length (open_queue h e)
      ∙ length-map-some (drop p.taken p.accepted)
      ∙ length-drop p.taken p.accepted

  open_put :
      (e : E) {m : Mailbox E} {p : Promise E}
      → Refines m p
      → p.closed ≡ false
      → m.queue ++ some e ∷ [] ≡ map some (drop p.taken (p.accepted ++ e ∷ [])) ++ []
  open_put e {m} {p} h o =
      rw (open_queue h o, drop-append p.taken p.accepted (e ∷ []) h.taken)
        (simp (append-nil, map-append))

  close-Refines : {m : Mailbox E} {p : Promise E} → Refines m p → AfterStep closes m p
  unfolding AfterStep step promised
  close-Refines {m} {p} h = ground (arith, open_queue h)

  post-Refines :
      (e : E) {m : Mailbox E} {p : Promise E} → Refines m p → AfterStep (posts (some e)) m p
  unfolding AfterStep step promised
  post-Refines e {m} {p} h =
      ground (arith, open_depth h, open_put e h, length-append p.accepted (e ∷ []))

  step-Refines : (op : Op E) {m : Mailbox E} {p : Promise E} → Refines m p → AfterStep op m p
  unfolding AfterStep step promised post
  step-Refines (posts none) h = (refl, h)
  step-Refines (posts (some e)) h = post-Refines e h
  step-Refines takes {m} {p} h = take-Refines (drop p.taken p.accepted) refl h
  step-Refines closes h = close-Refines h

  -- From related states, every schedule gets the promised replies and ends in related states.
  run-Refines :
      (ops : List (Op E)) {m : Mailbox E} {p : Promise E}
      → Refines m p
      → ((run ops m).0 ≡ (promised_run ops p).0) × Refines (run ops m).1 (promised_run ops p).1
  unfolding run promised_run AfterStep
  run-Refines [] h = (refl, h)
  run-Refines (op ∷ ops) h =
      let (same, h') = step-Refines op h in let (rest, h'') = run-Refines ops h' in (cc, h'')

  new-Refines : (name : String) (limit : ℕ) → Refines (new {E = E} name limit) (fresh limit)
  unfolding new
  new-Refines name limit = ground arith

-- Whatever posts, takes and closes are made of a new mailbox, in whatever order, every caller sees
-- what the promise says: events are handed over once, in the order of their posts; a post beyond
-- the cap is lost and counted; a post after the close raises; and the consumer is told of the close
-- once, when it has had every event.
pub run-eq-promised {ℓ} :
    {E : Type ℓ} (ops : List (Op E)) (name : String) (limit : ℕ)
    → (run ops (new name limit)).0 ≡ (promised_run ops (fresh limit)).0
run-eq-promised ops name limit = (run-Refines ops (new-Refines name limit)).0
