-- ===== src/Messaging/Mailbox/Tests.antt =====
-- A capped mailbox on a schedule that fills it, closes it and drains it.
use vm_quant_trader.Prelude.{ℕ, ◌≡◌, refl, none, some, List, [], ◌∷◌}
use vm_quant_trader.Errors.{ok, err, bad, none_event, mailbox_closed}
use vm_quant_trader.Messaging.Mailbox.{
  new, Op, posts, takes, closes, Reply, posted, took, done, step, run,
}
use vm_quant_trader.Messaging.Mailbox.Spec.{fresh, promised_run}
use vm_quant_trader.Messaging.Mailbox.Refinement.{run-eq-promised}
use vm_quant_trader.Messaging.Mailbox.Invariant.{IsValid, run-IsValid}

abbrev schedule : List (Op ℕ)
schedule =
    posts (some 7)
    ∷ posts (some 8)
    ∷ posts (some 9)
    ∷ posts none
    ∷ takes
    ∷ closes
    ∷ posts (some 10)
    ∷ takes
    ∷ takes
    ∷ takes
    ∷ []

abbrev replies : List (Reply ℕ)
replies =
    posted (ok tt)
    ∷ posted (ok tt)
    ∷ posted (ok tt)
    ∷ posted (err (bad none_event))
    ∷ took (some (some 7))
    ∷ done
    ∷ posted (err mailbox_closed)
    ∷ took (some (some 8))
    ∷ took (some none)
    ∷ took none
    ∷ []

run-schedule : (run schedule (new "broker" 2)).0 ≡ replies
unfolding run step new
run-schedule = refl

one_drop : (run schedule (new "broker" 2)).1.dropped ≡ 1
unfolding run step new
one_drop = refl

run-eq-promised_example : (run schedule (new "broker" 2)).0 ≡ (promised_run schedule (fresh 2)).0
run-eq-promised_example = run-eq-promised schedule "broker" 2

run-IsValid_example : IsValid (run schedule (new "broker" 2)).1
run-IsValid_example = run-IsValid schedule "broker" 2
