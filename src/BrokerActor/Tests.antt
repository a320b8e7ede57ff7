-- ===== src/BrokerActor/Tests.antt =====
-- A broker actor whose world is the list of timestamps that it traded at; at 13 the venue call
-- fails, and at 99 the operator has thrown the switch.
use vm_quant_trader.Prelude.{
  ℕ, ◌≡◌, refl, true, false, Option, none, some, List, [], ◌∷◌, ◌++◌, ◌==◌, if◌then◌else◌, arith,
}
use vm_quant_trader.Errors.{
  Method, ok, err, Exc, foreign, kill_switch_engaged, mailbox_closed, ◌>>=◌,
}
use vm_quant_trader.Floats.Whole.{whole}
use vm_quant_trader.Messaging.Events.{Message, target_weights, TargetWeights}
use vm_quant_trader.BrokerActor.{Actor, new, post_command, drain, refuse_commands}
use vm_quant_trader.BrokerActor.Modes.{raised, SameWork, post_all, post_all-modes}
use vm_quant_trader.BrokerActor.Counters.{drain-refuse_commands}

abbrev trade : TargetWeights whole → Method (List ℕ) (Unit {0})
trade c w =
    if c.dt == 99
    then (err kill_switch_engaged, w)
    else if c.dt == 13
    then (err (foreign "no price"), w)
    else (ok tt, w ++ c.dt ∷ [])

abbrev ignore : Option (Exc → Method (List ℕ) (Unit {0}))
ignore = none

abbrev at : ℕ → Message whole
at dt = target_weights (record { dt = dt; weights = [] })

abbrev commands : List (Message whole)
commands = at 1 ∷ at 13 ∷ at 2 ∷ at 99 ∷ at 3 ∷ []

abbrev Ran : Actor whole (List ℕ) → ℕ → ℕ → List ℕ → Type 0
Ran a attempted completed world =
    (a.attempted ≡ attempted) × (a.completed ≡ completed) × (a.world ≡ world)

threaded_cycle :
    let (r, a) = (post_all trade ignore commands >>= λ _. drain trade ignore) (new false []) in
    (r ≡ err kill_switch_engaged) × Ran a 4 2 (1 ∷ 2 ∷ [])
unfolding post_all drain new post_command
threaded_cycle = (refl, (refl, refl, refl))

post_all-modes_example :
    let (r, a) = post_all trade ignore commands (new true []) in
    let (r', b) = (post_all trade ignore commands >>= λ _. drain trade ignore) (new false []) in
    (raised r ≡ raised r') × SameWork a b
post_all-modes_example = post_all-modes trade ignore commands [] (omega arith)

abbrev two_waiting : Actor whole (List ℕ)
two_waiting =
    (post_command trade ignore (at 13) (post_command trade ignore (at 1) (new false [])).1).1

two_waiting-queue : two_waiting.mailbox.queue ≡ some (at 1) ∷ some (at 13) ∷ []
unfolding post_command new
two_waiting-queue = refl

two_waiting-drained : (drain trade ignore (refuse_commands two_waiting)).0 ≡ ok 2
unfolding drain refuse_commands post_command new
two_waiting-drained = refl

drain-refuse_commands_example :
    let b = (drain trade ignore (refuse_commands two_waiting)).1 in
    (◌≡◌ {A = ℕ} 2 2)
    × (b.world ≡ 1 ∷ [])
    × (b.attempted ≡ 2)
    × (b.completed ≡ 1)
    × (b.mailbox.queue ≡ [])
    × (post_command trade ignore (at 5) b ≡ (err mailbox_closed, b))
unfolding post_command new
drain-refuse_commands_example =
    drain-refuse_commands trade ignore (at 1 ∷ at 13 ∷ []) two_waiting 2 (at 5) two_waiting-queue
      two_waiting-drained
