-- ===== src/Live/Worker/Schedule.antt =====
-- The schedules of the fill worker: what the thread that posts and the worker's own thread do, one
-- atomic step after the other in any order.
use vm_quant_trader.Prelude.{
  ℕ, refl, Bool, true, false, Option, none, some, List, [], ◌∷◌, ◌++◌, append-nil, arith,
  if◌then◌else◌, Bool-cases, Option-cases, inl, inr,
}
use vm_quant_trader.Errors.{Exc, is_ok}
use vm_quant_trader.Live.Worker.{
  Call, Phase, waits, holds, finishes, goes_on, crashes, leaves, ended, Worker, new_worker,
  put_item, post_task, start, puts_pill, stop_begins, stop_ends, is_alive, take_task, taken, left,
  task_done, run_task, after_run, terminate, perform,
}
use vm_quant_trader.Live.Worker.Ordered.{
  held, IsOrdered, Shape, put_task-IsOrdered, put_pill-IsOrdered, started-IsOrdered,
  no_thread-IsOrdered, done_with-IsOrdered, gone-IsOrdered, pill_taken-IsOrdered,
  task_taken-IsOrdered, task_run-IsOrdered, pill_run-IsOrdered,
}

-- What was posted before the pill, once `stop` is called.
abbrev pub sealed : {W : Type 0} → Worker W → List (Call W) → List (Call W) → List (Call W)
sealed w posted before = if puts_pill w.thread w.stop_called then posted else before

-- A worker that a schedule leads to, with the calls posted so far, those run so far, and those that
-- had been posted when the pill went in.
pub data Reach {W : Type 0} (on_error : Option (Exc → Call W)) (on_terminate : Option (Call W))
    (world : W) : List (Call W) → List (Call W) → List (Call W) → Worker W → Type 0 where
  begins : Reach on_error on_terminate world [] [] [] (new_worker world)
  posts :
      (p d c : List (Call W)) (w : Worker W) (call : Call W)
      → Reach on_error on_terminate world p d c w
      → Reach on_error on_terminate world
          (p ++ call ∷ [])
          d
          c
          (post_task (some (record { runnable = some call })) w).1
  starts :
      (p d c : List (Call W)) (w : Worker W)
      → Reach on_error on_terminate world p d c w
      → Reach on_error on_terminate world p d c (start w)
  asks_to_stop :
      (p d c : List (Call W)) (w : Worker W)
      → Reach on_error on_terminate world p d c w
      → Reach on_error on_terminate world p d (sealed w p c) (stop_begins false w).1
  stops :
      (p d c : List (Call W)) (w : Worker W)
      → Reach on_error on_terminate world p d c w
      → Reach on_error on_terminate world p d c (stop_ends w).1
  takes :
      (p d c : List (Call W)) (w : Worker W)
      → Reach on_error on_terminate world p d c w
      → Reach on_error on_terminate world p d c (take_task w)
  runs :
      (p d c : List (Call W)) (w : Worker W)
      → Reach on_error on_terminate world p d c w
      → Reach on_error on_terminate world p (d ++ held w.thread) c (run_task on_error w)
  counts :
      (p d c : List (Call W)) (w : Worker W)
      → Reach on_error on_terminate world p d c w
      → Reach on_error on_terminate world p d c (task_done w)
  exits :
      (p d c : List (Call W)) (w : Worker W)
      → Reach on_error on_terminate world p d c w
      → Reach on_error on_terminate world p d c (terminate on_error on_terminate w)

module _ {W : Type 0} (on_error : Option (Exc → Call W)) where
  taken-IsOrdered :
      (p d c : List (Call W)) (thread : Option (Phase W)) (q : List (Option (Call W))) (n : ℕ)
      (called : Bool)
      → IsOrdered p d c thread q n called
      → IsOrdered p d c (taken thread q) (left thread q) n called
  taken-IsOrdered p d c (some waits) (none ∷ q) n called v = pill_taken-IsOrdered p d c q n called v
  taken-IsOrdered p d c (some waits) (some call ∷ q) n called v =
      task_taken-IsOrdered p d c q n called call v
  taken-IsOrdered p d c (some waits) [] n called v = v
  taken-IsOrdered p d c none q n called v = v
  taken-IsOrdered p d c (some (holds item)) q n called v = v
  taken-IsOrdered p d c (some (finishes next)) q n called v = v
  taken-IsOrdered p d c (some leaves) q n called v = v
  taken-IsOrdered p d c (some (ended crashed)) q n called v = v

  next-IsOrdered :
      (p d c : List (Call W)) (q : List (Option (Call W))) (n : ℕ) (called returned : Bool)
      (call : Call W)
      → IsOrdered p d c (some (holds (some call))) q n called
      → IsOrdered p
          (d ++ call ∷ [])
          c
          (some (finishes (if returned then goes_on else crashes)))
          q
          n
          called
  next-IsOrdered p d c q n called true call v =
      task_run-IsOrdered p d c q n called call goes_on refl v
  next-IsOrdered p d c q n called false call v =
      task_run-IsOrdered p d c q n called call crashes refl v

  after_run-IsOrdered :
      (p d c : List (Call W)) (thread : Option (Phase W)) (q : List (Option (Call W))) (n : ℕ)
      (called : Bool) (world : W)
      → IsOrdered p d c thread q n called
      → IsOrdered p (d ++ held thread) c (after_run on_error thread world) q n called
  unfolding after_run
  after_run-IsOrdered p d c none q n called world v = rw (append-nil d) v
  after_run-IsOrdered p d c (some waits) q n called world v = rw (append-nil d) v
  after_run-IsOrdered p d c (some (holds none)) q n called world v =
      rw (append-nil d) (pill_run-IsOrdered p d c q n called v)
  after_run-IsOrdered p d c (some (holds (some call))) q n called world v =
      next-IsOrdered p d c q n called (is_ok (perform on_error call world).0) call v
  after_run-IsOrdered p d c (some (finishes next)) q n called world v = rw (append-nil d) v
  after_run-IsOrdered p d c (some leaves) q n called world v = rw (append-nil d) v
  after_run-IsOrdered p d c (some (ended crashed)) q n called world v = rw (append-nil d) v

  stop_begins-Shape :
      (p d c : List (Call W)) (w : Worker W)
      → Shape p d c w
      → Shape p d (sealed w p c) (stop_begins false w).1
  unfolding stop_begins put_item
  stop_begins-Shape p d c w v = elim (Option-cases w.thread) [
    | inl e ↦ rw e (rw e at v)
    | inr (phase, e) ↦ elim (Bool-cases w.stop_called) [
      | inl called ↦ rw (e, called) (rw (e, called) at v)
      | inr first ↦
          rw (e, first)
            (put_pill-IsOrdered p d c (some phase) w.task_queue w.unfinished_tasks
              (rw (e, first) at v))
    ]
  ]

  stop_ends-Shape :
      (p d c : List (Call W)) (w : Worker W) → Shape p d c w → Shape p d c (stop_ends w).1
  unfolding stop_ends
  stop_ends-Shape p d c w v = elim (Bool-cases (is_alive w.thread)) [
    | inl alive ↦ rw alive v
    | inr dead ↦
        rw dead
          (no_thread-IsOrdered p d c w.task_queue w.unfinished_tasks w.stop_called w.thread dead v)
  ]

  -- Every schedule keeps the order of the tasks, the count and the pill.
  pub Reach-Shape :
      {on_terminate : Option (Call W)} {world : W} {p d c : List (Call W)} {w : Worker W}
      → Reach on_error on_terminate world p d c w
      → Shape p d c w
  unfolding new_worker post_task put_item start take_task run_task task_done terminate
  Reach-Shape begins = record {
    order = refl;
    count = refl;
    pill = omega arith;
    before = λ h. refl;
    after = λ h. cc;
  }
  Reach-Shape (posts p d c w call r) =
      put_task-IsOrdered p d c w.thread w.task_queue w.unfinished_tasks w.stop_called call
        (Reach-Shape r)
  Reach-Shape (starts p d c w r) =
      started-IsOrdered p d c w.task_queue w.unfinished_tasks w.stop_called w.thread (Reach-Shape r)
  Reach-Shape (asks_to_stop p d c w r) = stop_begins-Shape p d c w (Reach-Shape r)
  Reach-Shape (stops p d c w r) = stop_ends-Shape p d c w (Reach-Shape r)
  Reach-Shape (takes p d c w r) =
      taken-IsOrdered p d c w.thread w.task_queue w.unfinished_tasks w.stop_called (Reach-Shape r)
  Reach-Shape (runs p d c w r) =
      after_run-IsOrdered p d c w.thread w.task_queue w.unfinished_tasks w.stop_called w.world
        (Reach-Shape r)
  Reach-Shape (counts p d c w r) =
      done_with-IsOrdered p d c w.task_queue w.unfinished_tasks w.stop_called w.thread
        (Reach-Shape r)
  Reach-Shape (exits p d c w r) =
      gone-IsOrdered p d c w.task_queue w.unfinished_tasks w.stop_called w.thread (Reach-Shape r)
