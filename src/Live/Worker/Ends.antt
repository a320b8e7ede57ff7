-- ===== src/Live/Worker/Ends.antt =====
-- The worker's own steps empty its queue, up to the pill: so `join_tasks` and `stop` come back.
use mathlib.Core.Path.{subst}
use vm_quant_trader.Prelude.{
  ℕ, zero, suc, ◌<◌, ◌++◌, ◌≡◌, refl, true, false, Option, none, some, List, [], ◌∷◌, length, arith,
}
use vm_quant_trader.Errors.{Exc, is_ok, ok, err, Result}
use vm_quant_trader.Live.Worker.{
  Call, waits, ended, Worker, join_tasks, stop_ends, take_task, task_done, run_task, after_run,
  terminate, perform, report, reporting,
}
use vm_quant_trader.Live.Worker.Ordered.{pills, held, IsPrefix}
use vm_quant_trader.Live.Worker.Schedule.{Reach, takes, runs, counts, exits, Reach-Shape}
use vm_quant_trader.Live.Worker.Drained.{join_tasks_barrier, stop_finishes}

module _ {W : Type 0} (on_error : Option (Exc → Call W)) (on_terminate : Option (Call W)) where
  -- One round of `__loop` by the worker's thread, with its end where the pill is taken.
  unfoldable pub round : Worker W → Worker W
  unfolding take_task run_task task_done terminate
  round w = terminate on_error on_terminate (task_done (run_task on_error (take_task w)))

  unfoldable pub rounds : ℕ → Worker W → Worker W
  unfolding round
  rounds zero w = w
  rounds (suc n) w = rounds n (round w)

  -- The callback does not raise.
  abbrev pub IsHandled : Type 0
  IsHandled = (e : Exc) (w : W) → is_ok (report on_error e w).0 ≡ true

  reporting-returns :
      IsHandled → (out : Result (Unit {0}) × W) → is_ok (reporting on_error out).0 ≡ true
  reporting-returns h (ok x, w) = refl
  reporting-returns h (err e, w) = h e w

  perform-returns : IsHandled → (call : Call W) (w : W) → is_ok (perform on_error call w).0 ≡ true
  unfolding perform
  perform-returns h call w = reporting-returns h (call w)

  -- A thread in `get` with the tasks and the count that go with it.
  record IsWaiting (q : List (Option (Call W))) (w : Worker W) : Type 0 where
    thread : w.thread ≡ some waits
    queue : w.task_queue ≡ q
    count : w.unfinished_tasks ≡ length q

  round-IsWaiting :
      (handled : IsHandled) (call : Call W) (q : List (Option (Call W))) (w : Worker W)
      → IsWaiting (some call ∷ q) w
      → IsWaiting q (round w)
  unfolding round take_task run_task task_done terminate after_run
  round-IsWaiting handled call q w v = record {
    thread = rw (v.thread, v.queue, perform-returns handled call w.world) refl;
    queue = rw (v.thread, v.queue) refl;
    count = rw (v.thread, v.queue) (omega (arith, v.count));
  }

  round-ends :
      (q : List (Option (Call W))) (w : Worker W)
      → IsWaiting (none ∷ q) w
      → (round w).thread ≡ some (ended false)
  unfolding round take_task run_task task_done terminate after_run
  round-ends q w v = rw (v.thread, v.queue) refl

  round_after_end :
      (w : Worker W) → w.thread ≡ some (ended false) → (round w).thread ≡ some (ended false)
  unfolding round take_task run_task task_done terminate after_run
  round_after_end w e = rw e refl

  rounds_after_end :
      (n : ℕ) (w : Worker W)
      → w.thread ≡ some (ended false)
      → (rounds n w).thread ≡ some (ended false)
  unfolding rounds
  rounds_after_end zero w e = e
  rounds_after_end (suc n) w e = rounds_after_end n (round w) (round_after_end w e)

  rounds_empty :
      (handled : IsHandled) (q : List (Option (Call W))) (w : Worker W)
      → IsWaiting q w
      → pills q ≡ 0
      → IsWaiting [] (rounds (length q) w)
  unfolding rounds
  rounds_empty handled [] w v h = v
  rounds_empty handled (none ∷ q) w v h = ground (arith, h)
  rounds_empty handled (some call ∷ q) w v h =
      rounds_empty handled q (round w) (round-IsWaiting handled call q w v) h

  rounds_end :
      (handled : IsHandled) (q : List (Option (Call W))) (w : Worker W)
      → IsWaiting q w
      → 0 < pills q
      → (rounds (length q) w).thread ≡ some (ended false)
  unfolding rounds
  rounds_end handled [] w v h = ground (arith, h)
  rounds_end handled (none ∷ q) w v h = rounds_after_end (length q) (round w) (round-ends q w v)
  rounds_end handled (some call ∷ q) w v h =
      rounds_end handled q (round w) (round-IsWaiting handled call q w v) h

  -- A schedule goes on with rounds of the worker.
  Reach-rounds :
      {world : W} {p c : List (Call W)} (n : ℕ) (d : List (Call W)) (w : Worker W)
      → Reach on_error on_terminate world p d c w
      → (d' : List (Call W)) × Reach on_error on_terminate world p d' c (rounds n w)
  unfolding rounds round
  Reach-rounds zero d w r = (d, r)
  Reach-rounds {world} {p} {c} (suc n) d w r =
      let took = takes p d c w r in
      let ran = runs p d c (take_task w) took in
      let next = d ++ held (take_task w).thread in
      let counted = counts p next c (run_task on_error (take_task w)) ran in
      Reach-rounds n next (round w)
        (exits p next c (task_done (run_task on_error (take_task w))) counted)

  -- Unless the callback for errors raises: from any worker that a schedule leads to and that waits
  -- for a task, as many rounds of its own loop as its queue is long are enough. Without a pill in
  -- the queue, `join_tasks` then sees nothing unfinished and everything posted has been run; with
  -- one, the thread has ended, so `stop` answers true, and everything posted before the pill has
  -- been run.
  pub rounds_serve :
      {world : W} {p d c : List (Call W)} {w : Worker W}
      → IsHandled
      → Reach on_error on_terminate world p d c w
      → w.thread ≡ some waits
      → let w' = rounds (length w.task_queue) w in
        (pills w.task_queue ≡ 0
          → (join_tasks w' ≡ true) × Reach on_error on_terminate world p p c w')
        × (0 < pills w.task_queue
            → ((stop_ends w').0 ≡ ok true)
              × ((d' : List (Call W)) × Reach on_error on_terminate world p d' c w'
                  × IsPrefix c d'))
  unfolding join_tasks stop_ends
  rounds_serve {world} {p} {d} {c} {w} handled r waiting =
      let q = w.task_queue in
      let ready : IsWaiting q w = record {
        thread = waiting;
        queue = refl;
        count = ground (arith, (Reach-Shape on_error r).count, waiting);
      } in
      let (d', r') = Reach-rounds (length q) d w r in
      (
        λ no_pill.
            let v = rounds_empty handled q w ready no_pill in
            let seen : join_tasks (rounds (length q) w) ≡ true =
              unfold join_tasks in ground (arith, v.count) in
            (
              seen,
              subst
                  (λ (l : List (Call W)).
                    Reach on_error on_terminate world p l c (rounds (length q) w))
                  (join_tasks_barrier on_error r' seen).0 r',
            ),
        λ pill.
            let over = rounds_end handled q w ready pill in
            (rw over refl, (d', r', stop_finishes on_error r' over)),
      )
