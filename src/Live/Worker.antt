-- ===== src/Live/Worker.antt =====
-- The fill worker (vmtrader/broker/live/worker.py): one thread, one FIFO queue, and `None` in it as
-- the poison pill. The queue's own lock makes a put, a get and a `task_done` atomic, so what the
-- two threads do is a sequence of these. What stands in the queue for a task is its call,
-- `runnable(task)`.
pub mod Ordered
pub mod Schedule
pub mod Drained
pub mod Ends
mod Tests
use vm_quant_trader.Prelude.{
  ℕ, ◌+◌, ◌-◌, Bool, true, false, Option, none, some, List, [], ◌∷◌, ◌++◌, ◌==◌, if◌then◌else◌,
}
use vm_quant_trader.Errors.{
  Method, Result, ok, err, Exc, bad, none_event, not_runnable, stops_itself, is_ok,
}

-- A call reads and writes the world that the tasks and the callbacks share.
abbrev pub Call : Type 0 → Type 0
Call W = Method W (Unit {0})

pub record Task (W : Type 0) : Type 0 where
  -- `task.get("runnable")`, where it is callable
  pub runnable : Option (Call W)

-- Where the thread goes after `task_done`: on, out of the loop, or out by an exception.
pub data Next : Type 0 where
  goes_on : Next
  gets_out : Next
  crashes : Next

-- Where the thread is in `__loop`.
pub data Phase (W : Type 0) : Type 0 where
  -- in `get`
  waits : Phase W
  -- after it, before the task is run
  holds : Option (Call W) → Phase W
  -- in `finally`, before `task_done`
  finishes : Next → Phase W
  -- out of the loop, before `on_terminate`
  leaves : Phase W
  -- no longer alive; `crashed` if an exception left the loop
  ended : (crashed : Bool) → Phase W

pub record Worker (W : Type 0) : Type 0 where
  pub task_queue : List (Option (Call W))
  pub unfinished_tasks : ℕ
  pub thread : Option (Phase W)
  pub stop_called : Bool
  pub world : W

module _ {W : Type 0} where
  -- `TaskQueueWorker(…)`
  unfoldable pub new_worker : W → Worker W
  new_worker world = record {
    task_queue = [];
    unfinished_tasks = 0;
    thread = none;
    stop_called = false;
    world = world;
  }

  -- `self._task_queue.put(item)`
  unfoldable pub put_item : Option (Call W) → Worker W → Worker W
  put_item item w = record w {
    task_queue = w.task_queue ++ item ∷ [];
    unfinished_tasks = w.unfinished_tasks + 1;
  }

  -- `post_task(task)`
  unfoldable pub post_task : Option (Task W) → Method (Worker W) (Unit {0})
  unfolding put_item
  post_task none w = (err (bad none_event), w)
  post_task (some task) w = elim task.runnable [
    | none ↦ (err (bad not_runnable), w)
    | some call ↦ (ok tt, put_item (some call) w)
  ]

  abbrev pub started : Option (Phase W) → Option (Phase W)
  started none = some waits
  started (some phase) = some phase

  -- `start()`
  unfoldable pub start : Worker W → Worker W
  start w = record w { thread = started w.thread }

  -- Whether `stop` puts the pill in.
  abbrev pub puts_pill : Option (Phase W) → Bool → Bool
  puts_pill none called = false
  puts_pill (some phase) called = if called then false else true

  -- `stop(timeout)` up to the join. `own` says whether the worker's own thread calls it.
  unfoldable pub stop_begins : Bool → Method (Worker W) (Unit {0})
  unfolding put_item
  stop_begins own w = elim w.thread [
    | none ↦ (ok tt, w)
    | some phase ↦
        if own
        then (err (bad stops_itself), w)
        else if w.stop_called
        then (ok tt, w)
        else (ok tt, put_item none (record w { stop_called = true }))
  ]

  -- `is_alive()` of the thread, where there is one
  abbrev pub is_alive : Option (Phase W) → Bool
  is_alive none = false
  is_alive (some (ended crashed)) = false
  is_alive (some phase) = true

  -- `is_running()`
  unfoldable pub is_running : Worker W → Bool
  is_running w = is_alive w.thread

  -- `stop(timeout)` once the join has returned, in time or not.
  unfoldable pub stop_ends : Method (Worker W) Bool
  stop_ends w = if is_alive w.thread then (ok false, w) else (ok true, record w { thread = none })

  -- What `join_tasks` looks at whenever it looks, and its answer: with no thread at once, without a
  -- timeout when the count is zero, and else when it is zero or the time is up.
  unfoldable pub join_tasks : Worker W → Bool
  join_tasks w = w.unfinished_tasks == 0

  abbrev pub taken : Option (Phase W) → List (Option (Call W)) → Option (Phase W)
  taken (some waits) (item ∷ q) = some (holds item)
  taken thread q = thread

  abbrev pub left : Option (Phase W) → List (Option (Call W)) → List (Option (Call W))
  left (some waits) (item ∷ q) = q
  left thread q = q

  -- `task = self._task_queue.get()`. A step that the thread is not at does nothing.
  unfoldable pub take_task : Worker W → Worker W
  take_task w = record w {
    task_queue = left w.thread w.task_queue;
    thread = taken w.thread w.task_queue;
  }

  abbrev pub done_with : Option (Phase W) → Option (Phase W)
  done_with (some (finishes goes_on)) = some waits
  done_with (some (finishes gets_out)) = some leaves
  done_with (some (finishes crashes)) = some (ended true)
  done_with thread = thread

  abbrev pub still_unfinished : Option (Phase W) → ℕ → ℕ
  still_unfinished (some (finishes next)) n = n - 1
  still_unfinished thread n = n

  -- `self._task_queue.task_done()`
  unfoldable pub task_done : Worker W → Worker W
  task_done w = record w {
    unfinished_tasks = still_unfinished w.thread w.unfinished_tasks;
    thread = done_with w.thread;
  }

  abbrev pub gone : Option (Phase W) → Option (Phase W)
  gone (some leaves) = some (ended false)
  gone thread = thread

module _ {W : Type 0} (on_error : Option (Exc → Call W)) where
  abbrev pub report : Exc → Call W
  report e w = elim on_error [ none ↦ (ok tt, w) | some handler ↦ handler e w ]

  -- A call under `except Exception`: what it raises is reported, and what the report raises comes
  -- out.
  abbrev pub reporting : Result (Unit {0}) × W → Result (Unit {0}) × W
  reporting (ok _, w) = (ok tt, w)
  reporting (err e, w) = report e w

  unfoldable pub perform : Call W → Call W
  perform call w = reporting (call w)

  unfoldable pub after_run : Option (Phase W) → W → Option (Phase W)
  unfolding perform
  after_run (some (holds none)) w = some (finishes gets_out)
  after_run (some (holds (some call))) w =
      some (finishes (if is_ok (perform call w).0 then goes_on else crashes))
  after_run thread w = thread

  unfoldable pub effect : Option (Phase W) → W → W
  unfolding perform
  effect (some (holds (some call))) w = (perform call w).1
  effect thread w = w

  -- The body of the loop between `get` and `task_done`: the pill ends the loop, a task is run.
  unfoldable pub run_task : Worker W → Worker W
  unfolding after_run effect
  run_task w = record w { thread = after_run w.thread w.world; world = effect w.thread w.world }

  unfoldable pub last_words : Option (Call W) → Option (Phase W) → W → W
  unfolding perform
  last_words (some on_terminate) (some leaves) w = (perform on_terminate w).1
  last_words on_terminate thread w = w

  -- The end of `__loop`, with `on_terminate`.
  unfoldable pub terminate : Option (Call W) → Worker W → Worker W
  unfolding last_words
  terminate on_terminate w = record w {
    thread = gone w.thread;
    world = last_words on_terminate w.thread w.world;
  }
