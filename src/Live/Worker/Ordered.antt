-- ===== src/Live/Worker/Ordered.antt =====
-- Every schedule of the two threads of the fill worker: what has been run is what was posted, in
-- order.
use vm_quant_trader.Prelude.{
  ℕ, ◌+◌, ◌-◌, ◌≤◌, ◌≡◌, refl, sym, ap, ◌∙◌, Bool, true, false, Option, none, some, List, [], ◌∷◌,
  ◌++◌, append-nil, append_assoc, length, length-append, arith, if◌then◌else◌,
}
use vm_quant_trader.Live.Worker.{
  Call, Phase, waits, holds, finishes, Next, goes_on, gets_out, crashes, leaves, ended, Worker,
  started, is_alive, done_with, still_unfinished, gone,
}

module _ {W : Type 0} where
  -- The task that the thread has taken and not run.
  abbrev pub held : Option (Phase W) → List (Call W)
  held (some (holds (some call))) = call ∷ []
  held thread = []

  -- The item that the thread has taken and not counted off.
  abbrev pub busy : Option (Phase W) → ℕ
  busy (some (holds item)) = 1
  busy (some (finishes next)) = 1
  busy thread = 0

  abbrev pub tasks_of : List (Option (Call W)) → List (Call W)
  tasks_of [] = []
  tasks_of (none ∷ q) = tasks_of q
  tasks_of (some call ∷ q) = call ∷ tasks_of q

  -- The tasks in front of the pill.
  abbrev pub ahead : List (Option (Call W)) → List (Call W)
  ahead [] = []
  ahead (none ∷ q) = []
  ahead (some call ∷ q) = call ∷ ahead q

  abbrev pub pills : List (Option (Call W)) → ℕ
  pills [] = 0
  pills (none ∷ q) = pills q + 1
  pills (some call ∷ q) = pills q

  -- Whether the thread has taken the pill.
  abbrev pub leaving : Option (Phase W) → ℕ
  leaving (some (holds none)) = 1
  leaving (some (finishes gets_out)) = 1
  leaving (some leaves) = 1
  leaving (some (ended false)) = 1
  leaving thread = 0

  tasks_of-append : (q r : List (Option (Call W))) → tasks_of (q ++ r) ≡ tasks_of q ++ tasks_of r
  tasks_of-append [] r = refl
  tasks_of-append (none ∷ q) r = tasks_of-append q r
  tasks_of-append (some call ∷ q) r = ap (λ (l : List (Call W)). call ∷ l) (tasks_of-append q r)

  pills-append : (q r : List (Option (Call W))) → pills (q ++ r) ≡ pills q + pills r
  pills-append [] r = omega arith
  pills-append (none ∷ q) r = omega (arith, pills-append q r)
  pills-append (some call ∷ q) r = pills-append q r

  ahead-append :
      (q r : List (Option (Call W))) → pills q ≡ 0 → ahead (q ++ r) ≡ tasks_of q ++ ahead r
  ahead-append [] r h = refl
  ahead-append (none ∷ q) r h = ground (arith, h)
  ahead-append (some call ∷ q) r h = ap (λ (l : List (Call W)). call ∷ l) (ahead-append q r h)

  ahead-behind : (q r : List (Option (Call W))) → pills q ≡ 1 → ahead (q ++ r) ≡ ahead q
  ahead-behind [] r h = ground (arith, h)
  ahead-behind (none ∷ q) r h = refl
  ahead-behind (some call ∷ q) r h = ap (λ (l : List (Call W)). call ∷ l) (ahead-behind q r h)

  abbrev pub IsPrefix : List (Call W) → List (Call W) → Type 0
  IsPrefix c d = (s : List (Call W)) × (d ≡ c ++ s)

  abbrev finishing : Next → Option (Phase W)
  finishing next = some (finishes next)

  -- What is true between any two steps: `p` has been posted, `d` run, and `c` was posted when the
  -- pill was put in.
  pub record IsOrdered (p d c : List (Call W)) (thread : Option (Phase W))
      (q : List (Option (Call W))) (n : ℕ) (called : Bool) : Type 0 where
    pub order : p ≡ d ++ (held thread ++ tasks_of q)
    pub count : n ≡ length q + busy thread
    pub pill : pills q + leaving thread ≤ (if called then 1 else 0)
    pub before : pills q ≡ 1 → c ≡ d ++ (held thread ++ ahead q)
    pub after : leaving thread ≡ 1 → IsPrefix c d

  behind : (d h q r : List (Call W)) → (d ++ (h ++ q)) ++ r ≡ d ++ (h ++ (q ++ r))
  behind [] [] q r = refl
  behind [] (x ∷ h) q r = ap (λ (l : List (Call W)). x ∷ l) (behind [] h q r)
  behind (x ∷ d) h q r = ap (λ (l : List (Call W)). x ∷ l) (behind d h q r)

  module _ (p d c : List (Call W)) (thread : Option (Phase W)) (q : List (Option (Call W)))
      (n : ℕ) where
    pub put_task-IsOrdered :
        (called : Bool) (call : Call W)
        → IsOrdered p d c thread q n called
        → IsOrdered (p ++ call ∷ []) d c thread (q ++ some call ∷ []) (n + 1) called
    put_task-IsOrdered called call v = record {
      order =
          rw (v.order, tasks_of-append q (some call ∷ []))
            (behind d (held thread) (tasks_of q) (call ∷ []));
      count = omega (arith, v.count, length-append q (some call ∷ []));
      pill = omega (arith, v.pill, pills-append q (some call ∷ []));
      before = λ h.
          let one : pills q ≡ 1 = omega (arith, h, pills-append q (some call ∷ [])) in
          rw (ahead-behind q (some call ∷ []) one) (v.before one);
      after = v.after;
    }

    pub put_pill-IsOrdered :
        IsOrdered p d c thread q n false → IsOrdered p d p thread (q ++ none ∷ []) (n + 1) true
    put_pill-IsOrdered v =
        let zero : pills q ≡ 0 = omega (arith, v.pill) in
        record {
          order = rw (tasks_of-append q (none ∷ []), append-nil (tasks_of q)) v.order;
          count = omega (arith, v.count, length-append q (none ∷ []));
          pill = omega (arith, v.pill, pills-append q (none ∷ []));
          before = λ h. rw (ahead-append q (none ∷ []) zero, append-nil (tasks_of q)) v.order;
          after = λ h. absurd (omega (arith, v.pill, h));
        }

  module _ (p d c : List (Call W)) (q : List (Option (Call W))) (n : ℕ) (called : Bool) where
    pub started-IsOrdered :
        (thread : Option (Phase W))
        → IsOrdered p d c thread q n called
        → IsOrdered p d c (started thread) q n called
    started-IsOrdered none v = record {
      order = v.order;
      count = v.count;
      pill = v.pill;
      before = v.before;
      after = v.after;
    }
    started-IsOrdered (some phase) v = v

    pub no_thread-IsOrdered :
        (thread : Option (Phase W))
        → is_alive thread ≡ false
        → IsOrdered p d c thread q n called
        → IsOrdered p d c none q n called
    no_thread-IsOrdered none h v = v
    no_thread-IsOrdered (some (ended crashed)) h v = record {
      order = v.order;
      count = v.count;
      pill = omega (arith, v.pill);
      before = v.before;
      after = λ e. cc;
    }
    no_thread-IsOrdered (some waits) h v = cc
    no_thread-IsOrdered (some (holds item)) h v = cc
    no_thread-IsOrdered (some (finishes next)) h v = cc
    no_thread-IsOrdered (some leaves) h v = cc

    task_done-IsOrdered :
        (next : Next) (thread : Option (Phase W))
        → held thread ≡ []
        → busy thread ≡ 0
        → leaving thread ≡ leaving (finishing next)
        → IsOrdered p d c (some (finishes next)) q n called
        → IsOrdered p d c thread q (n - 1) called
    task_done-IsOrdered next thread empty idle same v = record {
      order = rw empty v.order;
      count = omega (arith, v.count, idle);
      pill = rw same v.pill;
      before = rw empty v.before;
      after = rw same v.after;
    }

    pub done_with-IsOrdered :
        (thread : Option (Phase W))
        → IsOrdered p d c thread q n called
        → IsOrdered p d c (done_with thread) q (still_unfinished thread n) called
    done_with-IsOrdered (some (finishes goes_on)) v =
        task_done-IsOrdered goes_on (some waits) refl refl refl v
    done_with-IsOrdered (some (finishes gets_out)) v =
        task_done-IsOrdered gets_out (some leaves) refl refl refl v
    done_with-IsOrdered (some (finishes crashes)) v =
        task_done-IsOrdered crashes (some (ended true)) refl refl refl v
    done_with-IsOrdered none v = v
    done_with-IsOrdered (some waits) v = v
    done_with-IsOrdered (some (holds item)) v = v
    done_with-IsOrdered (some leaves) v = v
    done_with-IsOrdered (some (ended crashed)) v = v

    pub gone-IsOrdered :
        (thread : Option (Phase W))
        → IsOrdered p d c thread q n called
        → IsOrdered p d c (gone thread) q n called
    gone-IsOrdered (some leaves) v = record {
      order = v.order;
      count = v.count;
      pill = v.pill;
      before = v.before;
      after = v.after;
    }
    gone-IsOrdered none v = v
    gone-IsOrdered (some waits) v = v
    gone-IsOrdered (some (holds item)) v = v
    gone-IsOrdered (some (finishes next)) v = v
    gone-IsOrdered (some (ended crashed)) v = v

    pub pill_taken-IsOrdered :
        IsOrdered p d c (some waits) (none ∷ q) n called
        → IsOrdered p d c (some (holds none)) q n called
    pill_taken-IsOrdered v =
        let own : pills (none ∷ q) ≡ 1 = ground (arith, v.pill) in
        record {
          order = v.order;
          count = omega (arith, v.count);
          pill = ground (arith, v.pill);
          before = λ h. absurd (omega (arith, own, h));
          after = λ h. ([], ground (arith, v.before own, append-nil d));
        }

    pub task_taken-IsOrdered :
        (call : Call W)
        → IsOrdered p d c (some waits) (some call ∷ q) n called
        → IsOrdered p d c (some (holds (some call))) q n called
    task_taken-IsOrdered call v = record {
      order = v.order;
      count = omega (arith, v.count);
      pill = v.pill;
      before = v.before;
      after = λ h. cc;
    }

    pub task_run-IsOrdered :
        (call : Call W) (next : Next)
        → leaving (finishing next) ≡ 0
        → IsOrdered p d c (some (holds (some call))) q n called
        → IsOrdered p (d ++ call ∷ []) c (some (finishes next)) q n called
    task_run-IsOrdered call next stays v = record {
      order = v.order ∙ sym (append_assoc d (call ∷ []) (tasks_of q));
      count = v.count;
      pill = rw stays v.pill;
      before = λ h. v.before h ∙ sym (append_assoc d (call ∷ []) (ahead q));
      after = λ h. absurd (omega (arith, stays, h));
    }

    pub pill_run-IsOrdered :
        IsOrdered p d c (some (holds none)) q n called
        → IsOrdered p d c (some (finishes gets_out)) q n called
    pill_run-IsOrdered v = record {
      order = v.order;
      count = v.count;
      pill = v.pill;
      before = v.before;
      after = v.after;
    }

  -- What is posted, run and posted before the pill, and the worker.
  abbrev pub Shape : List (Call W) → List (Call W) → List (Call W) → Worker W → Type 0
  Shape p d c w = IsOrdered p d c w.thread w.task_queue w.unfinished_tasks w.stop_called
