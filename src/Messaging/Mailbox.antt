-- ===== src/Messaging/Mailbox.antt =====
-- The single-consumer mailbox (vmtrader/messaging/mailbox.py). `queue.Queue` is a list with its
-- head at the consumer's end, and `none` in it is the close sentinel. A post, a take and a close
-- are atomic: the class holds its lock in `post` and `close`, and `queue.Queue` has one of its own.
pub mod Spec
pub mod Invariant
pub mod Refinement
mod Tests
use vm_quant_trader.Prelude.{
  ℕ, suc, ◌+◌, ◌%◌, String, Bool, true, false, not, ◌&&◌, Option, none, some, List, [], ◌∷◌, ◌++◌,
  ltb, leb, ◌==◌, if◌then◌else◌, length,
}
use vm_quant_trader.Errors.{Method, Result, ok, err, bad, none_event, mailbox_closed}

-- What `_drop` writes to the log.
pub data LogLine : Type 0 where
  full_error : LogLine
  dropped_warning : ℕ → LogLine

-- The line that `_drop` logs when `n` events have been dropped, this one included.
unfoldable pub drop_line : ℕ → List LogLine
drop_line n =
    if n == 1 then full_error ∷ [] else if n % 100 == 0 then dropped_warning n ∷ [] else []

pub record Mailbox {ℓ} (E : Type ℓ) : Type ℓ where
  pub name : String
  pub maxsize : ℕ
  pub queue : List (Option E)
  pub closed : Bool
  pub posted : ℕ
  pub high_water : ℕ
  pub dropped : ℕ
  pub log : List LogLine

module _ {ℓ} {E : Type ℓ} where
  -- `Mailbox(name, maxsize)`
  unfoldable pub new : String → ℕ → Mailbox E
  new name maxsize = record {
    name = name;
    maxsize = maxsize;
    queue = [];
    closed = false;
    posted = 0;
    high_water = 0;
    dropped = 0;
    log = [];
  }

  -- `depth()`, the sentinel included
  unfoldable pub depth : Mailbox E → ℕ
  depth m = length m.queue

  -- `_drop(event)`
  unfoldable pub drop : Mailbox E → Mailbox E
  drop m = record m { dropped = m.dropped + 1; log = m.log ++ drop_line (m.dropped + 1) }

  -- The end of `post`: put, count, and raise the high-water mark.
  unfoldable pub put : E → Mailbox E → Mailbox E
  put e m =
      let n = length (m.queue ++ some e ∷ []) in
      record m {
        queue = m.queue ++ some e ∷ [];
        posted = m.posted + 1;
        high_water = if ltb m.high_water n then n else m.high_water;
      }

  abbrev pub is_full : Mailbox E → Bool
  is_full m = not (m.maxsize == 0) && leb m.maxsize (length m.queue)

  -- `post(event)`
  unfoldable pub post : Option E → Method (Mailbox E) (Unit {0})
  unfolding drop put
  post none m = (err (bad none_event), m)
  post (some e) m =
      if m.closed
      then (err mailbox_closed, m)
      else if is_full m
      then (ok tt, drop m)
      else (ok tt, put e m)

  -- `take()`. An empty queue blocks, or raises `queue.Empty` under a timeout: then there is no
  -- item.
  unfoldable pub take : Mailbox E → Option (Option E) × Mailbox E
  take m = elim m.queue [ [] ↦ (none, m) | x ∷ q ↦ (some x, record m { queue = q }) ]

  -- `close()`
  unfoldable pub close : Mailbox E → Mailbox E
  close m = if m.closed then m else record m { closed = true; queue = m.queue ++ none ∷ [] }

-- What producers and the consumer do, in the order in which the locks let them.
pub data Op {ℓ} (E : Type ℓ) : Type ℓ where
  posts : Option E → Op E
  takes : Op E
  closes : Op E

-- What the caller sees.
pub data Reply {ℓ} (E : Type ℓ) : Type ℓ where
  posted : Result (Unit {0}) → Reply E
  took : Option (Option E) → Reply E
  done : Reply E

module _ {ℓ} {E : Type ℓ} where
  unfoldable pub step : Op E → Mailbox E → Reply E × Mailbox E
  unfolding post take close
  step (posts e) m = let (r, m') = post e m in (posted r, m')
  step takes m = let (r, m') = take m in (took r, m')
  step closes m = (done, close m)

  unfoldable pub run : List (Op E) → Mailbox E → List (Reply E) × Mailbox E
  run [] m = ([], m)
  run (op ∷ ops) m = let (r, m') = step op m in let (rs, m'') = run ops m' in (r ∷ rs, m'')
