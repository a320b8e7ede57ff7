-- ===== src/Live/Worker/Tests.antt =====
-- A worker with two tasks, one of which raises, and its theorems at that schedule.
use vm_quant_trader.Prelude.{
  ℕ, ◌≡◌, refl, true, false, Option, none, some, List, [], ◌∷◌, ◌++◌, length, ◌<◌, arith,
}
use vm_quant_trader.Errors.{is_ok, ok, err, Exc, foreign}
use vm_quant_trader.Live.Worker.{
  Call, Worker, new_worker, post_task, put_item, start, stop_begins, stop_ends, join_tasks,
  take_task, run_task, task_done, terminate, perform, report, after_run, effect, last_words,
}
use vm_quant_trader.Live.Worker.Ordered.{IsPrefix, pills}
use vm_quant_trader.Live.Worker.Schedule.{Reach, begins, posts, starts, asks_to_stop}
use vm_quant_trader.Live.Worker.Drained.{join_tasks_barrier, stop_finishes, perform_all}
use vm_quant_trader.Live.Worker.Ends.{rounds, round, rounds_serve}

-- A task that writes a number down, one that raises, and a callback that counts a failure as 100.
abbrev note : ℕ → Call (List ℕ)
note n w = (ok tt, w ++ n ∷ [])

abbrev failing : Call (List ℕ)
failing w = (err (foreign "timeout"), w)

abbrev noted_failure : Option (Exc → Call (List ℕ))
noted_failure = some (λ e w. (ok tt, w ++ 100 ∷ []))

abbrev two_posted : List (Call (List ℕ))
two_posted = failing ∷ note 7 ∷ []

unfoldable idle : Worker (List ℕ)
unfolding new_worker
idle = new_worker []

unfoldable loaded : Worker (List ℕ)
unfolding post_task put_item start idle
loaded =
    (post_task (some (record { runnable = some (note 7) }))
      (post_task (some (record { runnable = some failing })) (start idle)).1).1

loaded-reached : Reach noted_failure none [] two_posted [] [] loaded
unfolding loaded idle
loaded-reached =
    posts (failing ∷ []) [] [] _ (note 7) (posts [] [] [] _ failing (starts [] [] [] _ begins))

unfoldable stopping : Worker (List ℕ)
unfolding stop_begins put_item loaded
stopping = (stop_begins false loaded).1

stopping-reached : Reach noted_failure none [] two_posted [] two_posted stopping
unfolding stopping loaded post_task put_item start idle new_worker
stopping-reached = asks_to_stop two_posted [] [] loaded loaded-reached

handled : (e : Exc) (w : List ℕ) → is_ok (report noted_failure e w).0 ≡ true
handled e w = refl

served : Reach noted_failure none [] two_posted two_posted [] (rounds noted_failure none 2 loaded)
unfolding loaded post_task put_item start idle new_worker
served = ((rounds_serve noted_failure none handled loaded-reached refl).0 refl).1

rounds_serve_example :
    let w' = rounds noted_failure none (length loaded.task_queue) loaded in
    (pills loaded.task_queue ≡ 0
      → (join_tasks w' ≡ true) × Reach noted_failure none [] two_posted two_posted [] w')
    × (0 < pills loaded.task_queue
        → ((stop_ends w').0 ≡ ok true)
          × ((d' : List (Call (List ℕ))) × Reach noted_failure none [] two_posted d' [] w'
              × IsPrefix [] d'))
unfolding loaded post_task put_item start idle new_worker
rounds_serve_example = rounds_serve noted_failure none handled loaded-reached refl

join_tasks_barrier_example :
    (two_posted ≡ two_posted)
    × (◌≡◌ {A = Option (Call (List ℕ))} none none
        → (rounds noted_failure none 2 loaded).world ≡ perform_all noted_failure two_posted [])
unfolding loaded post_task put_item start idle new_worker rounds round join_tasks take_task run_task
    task_done terminate perform after_run effect last_words
join_tasks_barrier_example = join_tasks_barrier noted_failure served refl

-- The failure is reported, and the task behind it is still run.
written : (rounds noted_failure none 2 loaded).world ≡ 100 ∷ 7 ∷ []
unfolding loaded post_task put_item start idle new_worker rounds round take_task run_task task_done
    terminate perform after_run effect last_words
written = refl

stopped :
    (d : List (Call (List ℕ))) × Reach noted_failure none [] two_posted d two_posted
      (rounds noted_failure none 3 stopping)
    × IsPrefix two_posted d
unfolding stopping loaded post_task put_item stop_begins start idle new_worker
stopped = ((rounds_serve noted_failure none handled stopping-reached refl).1 (omega arith)).1

stop_finishes_example : IsPrefix two_posted stopped.0
unfolding stopping stop_begins loaded post_task put_item start idle new_worker rounds round
    take_task run_task task_done terminate perform after_run effect last_words
stop_finishes_example = stop_finishes noted_failure stopped.1 refl
