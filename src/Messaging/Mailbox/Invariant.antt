-- ===== src/Messaging/Mailbox/Invariant.antt =====
-- The counters of a mailbox: what each of them bounds, at every moment of every schedule.
use vm_quant_trader.Prelude.{
  ℕ, ◌+◌, ◌/◌, ◌≤◌, ◌≡◌, ◌≢◌, String, Bool, false, Option, none, some, List, [], ◌∷◌, arith, ltb,
  if◌then◌else◌, length, length-append,
}
use vm_quant_trader.Messaging.Mailbox.{
  Mailbox, new, drop_line, put, drop, post, take, close, Op, posts, takes, closes, step, run,
}

abbrev one_if : Bool → ℕ
one_if b = if b then 1 else 0

length-drop_line :
    (n : ℕ) → one_if (ltb 0 n) + n / 100 + length (drop_line (n + 1)) ≡ 1 + (n + 1) / 100
unfolding drop_line
length-drop_line n = ground arith

module _ {ℓ} {E : Type ℓ} where
  pub record IsValid (m : Mailbox E) : Type ℓ where
    pub depth_marked : length m.queue ≤ m.high_water + one_if m.closed
    pub marked_posted : m.high_water ≤ m.posted
    pub capped : m.maxsize ≢ 0 → m.high_water ≤ m.maxsize
    pub uncapped : m.maxsize ≡ 0 → m.dropped ≡ 0
    pub log_lines : length m.log ≡ one_if (ltb 0 m.dropped) + m.dropped / 100

  drop_log :
      {m : Mailbox E}
      → IsValid m
      → length (drop m).log ≡ one_if (ltb 0 (drop m).dropped) + (drop m).dropped / 100
  unfolding drop
  drop_log {m} v =
      ground (arith, length-append m.log (drop_line (m.dropped + 1)), length-drop_line m.dropped)

  drop-IsValid : {m : Mailbox E} → IsValid m → m.maxsize ≢ 0 → IsValid (drop m)
  unfolding drop
  drop-IsValid {m} v h = record {
    depth_marked = v.depth_marked;
    marked_posted = v.marked_posted;
    capped = v.capped;
    uncapped = λ z. absurd (h z);
    log_lines = unfold drop in drop_log v;
  }

  put-IsValid :
      (e : E) {m : Mailbox E}
      → IsValid m
      → m.closed ≡ false
      → (m.maxsize ≢ 0 → length m.queue + 1 ≤ m.maxsize)
      → IsValid (put e m)
  unfolding put
  put-IsValid e {m} v o room = ground (arith, length-append m.queue (some e ∷ []))

  close-IsValid : {m : Mailbox E} → IsValid m → IsValid (close m)
  unfolding close
  close-IsValid {m} v = ground (arith, length-append m.queue (none ∷ []))

  take-IsValid : {m : Mailbox E} → IsValid m → IsValid (take m).1
  unfolding take
  take-IsValid {m} v = ground arith

  post-IsValid : (e : Option E) {m : Mailbox E} → IsValid m → IsValid (post e m).1
  unfolding post
  post-IsValid none v = v
  post-IsValid (some e) {m} v = ground (arith, drop-IsValid v, put-IsValid e v)

  pub step-IsValid : (op : Op E) {m : Mailbox E} → IsValid m → IsValid (step op m).1
  unfolding step
  step-IsValid (posts e) v = post-IsValid e v
  step-IsValid takes v = take-IsValid v
  step-IsValid closes v = close-IsValid v

  run_from-IsValid : (ops : List (Op E)) {m : Mailbox E} → IsValid m → IsValid (run ops m).1
  unfolding run
  run_from-IsValid [] v = v
  run_from-IsValid (op ∷ ops) v = run_from-IsValid ops (step-IsValid op v)

  new-IsValid : (name : String) (limit : ℕ) → IsValid (new {E = E} name limit)
  unfolding new
  new-IsValid name limit = ground arith

-- After any schedule on a new mailbox: what waits, the sentinel left out, is at most the high-water
-- mark; the mark is at most the number of events posted, and at most the cap where there is one;
-- without a cap nothing is dropped; and the log has one line for the first drop and one for each
-- hundredth.
pub run-IsValid {ℓ} :
    {E : Type ℓ} (ops : List (Op E)) (name : String) (limit : ℕ)
    → IsValid (run ops (new name limit)).1
run-IsValid ops name limit = run_from-IsValid ops (new-IsValid name limit)
