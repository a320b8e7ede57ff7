-- ===== src/Live/Worker/Drained.antt =====
-- What the callers of the fill worker wait for: the barrier of `join_tasks`, the end by `stop`, and
-- that the worker's own steps bring both about.
use mathlib.Core.Path.{subst}
use vm_quant_trader.Prelude.{
  ◌≡◌, refl, sym, ap, ◌∙◌, true, false, Option, none, some, List, [], ◌∷◌, ◌++◌, append-nil, length,
  arith,
}
use vm_quant_trader.Errors.{Exc}
use vm_quant_trader.Live.Worker.{
  Call, Phase, waits, holds, finishes, leaves, ended, Worker, new_worker, post_task, put_item,
  start, stop_begins, stop_ends, join_tasks, take_task, task_done, run_task, effect, terminate,
  last_words, perform,
}
use vm_quant_trader.Live.Worker.Ordered.{held, busy, tasks_of, leaving, IsPrefix}
use vm_quant_trader.Live.Worker.Schedule.{
  Reach, begins, posts, starts, asks_to_stop, stops, takes, runs, counts, exits, Reach-Shape,
}

module _ {W : Type 0} where
  held_idle : (thread : Option (Phase W)) → busy thread ≡ 0 → held thread ≡ []
  held_idle none h = refl
  held_idle (some waits) h = refl
  held_idle (some (holds item)) h = ground (arith, h)
  held_idle (some (finishes next)) h = refl
  held_idle (some leaves) h = refl
  held_idle (some (ended crashed)) h = refl

  tasks_of_nothing : (q : List (Option (Call W))) → length q ≡ 0 → tasks_of q ≡ []
  tasks_of_nothing [] h = refl
  tasks_of_nothing (item ∷ q) h = ground (arith, h)

module _ {W : Type 0} (on_error : Option (Exc → Call W)) where
  -- The calls one after the other, each under `except Exception`.
  unfoldable pub perform_all : List (Call W) → W → W
  unfolding perform
  perform_all [] w = w
  perform_all (call ∷ calls) w = perform_all calls (perform on_error call w).1

  perform_all-append :
      (xs ys : List (Call W)) (w : W) → perform_all (xs ++ ys) w ≡ perform_all ys (perform_all xs w)
  unfolding perform_all
  perform_all-append [] ys w = refl
  perform_all-append (x ∷ xs) ys w = perform_all-append xs ys (perform on_error x w).1

  effect-held :
      (thread : Option (Phase W)) (w : W) → effect on_error thread w ≡ perform_all (held thread) w
  unfolding effect perform_all
  effect-held none w = refl
  effect-held (some waits) w = refl
  effect-held (some (holds none)) w = refl
  effect-held (some (holds (some call))) w = refl
  effect-held (some (finishes next)) w = refl
  effect-held (some leaves) w = refl
  effect-held (some (ended crashed)) w = refl

  stop_begins-world : (w : Worker W) → (stop_begins false w).1.world ≡ w.world
  unfolding stop_begins put_item
  stop_begins-world w = ground arith

  stop_ends-world : (w : Worker W) → (stop_ends w).1.world ≡ w.world
  unfolding stop_ends
  stop_ends-world w = ground arith

  Reach-world :
      {world : W} {p d c : List (Call W)} {w : Worker W}
      → Reach on_error none world p d c w
      → w.world ≡ perform_all d world
  unfolding new_worker post_task put_item start take_task run_task task_done terminate perform_all
      last_words
  Reach-world begins = refl
  Reach-world (posts p d c w call r) = Reach-world r
  Reach-world (starts p d c w r) = Reach-world r
  Reach-world (asks_to_stop p d c w r) = stop_begins-world w ∙ Reach-world r
  Reach-world (stops p d c w r) = stop_ends-world w ∙ Reach-world r
  Reach-world (takes p d c w r) = Reach-world r
  Reach-world (runs p d c w r) =
      effect-held w.thread w.world
      ∙ ap (perform_all (held w.thread)) (Reach-world r)
      ∙ sym (perform_all-append d (held w.thread) _)
  Reach-world (counts p d c w r) = Reach-world r
  Reach-world (exits p d c w r) = Reach-world r

  -- Whatever the order in which the poster and the worker take their steps: once `join_tasks` sees
  -- no unfinished task, the tasks that have been run are exactly those that were posted, in that
  -- order and each once; and if there is no `on_terminate`, what they share is as running them
  -- leaves it.
  pub join_tasks_barrier :
      {on_terminate : Option (Call W)} {world : W} {p d c : List (Call W)} {w : Worker W}
      → Reach on_error on_terminate world p d c w
      → join_tasks w ≡ true
      → (d ≡ p) × (on_terminate ≡ none → w.world ≡ perform_all p world)
  unfolding join_tasks
  join_tasks_barrier {on_terminate} {world} {p} {d} {c} {w} r h =
      let v = Reach-Shape on_error r in
      let none_left : w.unfinished_tasks ≡ 0 = ground (arith, h) in
      let queue : tasks_of w.task_queue ≡ [] =
        tasks_of_nothing w.task_queue (omega (arith, none_left, v.count)) in
      let idle : held w.thread ≡ [] = held_idle w.thread (omega (arith, none_left, v.count)) in
      let all : d ≡ p = sym (v.order ∙ rw (queue, idle) (append-nil d)) in
      (
        all,
        λ e.
            Reach-world (subst (λ (o : Option (Call W)). Reach on_error o world p d c w) e r)
            ∙ ap (λ (l : List (Call W)). perform_all l world) all,
      )

  -- Whatever the order of the steps: when the thread has ended other than by an exception, every
  -- task that had been posted when `stop` put the pill in has been run, in the order of posting.
  pub stop_finishes :
      {on_terminate : Option (Call W)} {world : W} {p d c : List (Call W)} {w : Worker W}
      → Reach on_error on_terminate world p d c w
      → w.thread ≡ some (ended false)
      → IsPrefix c d
  stop_finishes r h = (Reach-Shape on_error r).after (ap leaving h)
