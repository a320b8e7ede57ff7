-- ===== src/Simulated/Tests.antt =====
-- The simulated broker on small inputs, in whole won.
use vm_quant_trader.Prelude.{◌≡◌, refl, String, true, none, List, [], ◌∷◌, arith, if◌then◌else◌}
use vm_quant_trader.Prelude.Int.{pos, negsuc, ◌+ℤ◌}
use vm_quant_trader.Errors.{ok, is_ok}
use vm_quant_trader.Floats.Whole.{whole}
use vm_quant_trader.Dict.{get, get_or, contains}
use vm_quant_trader.FeeModel.{zero_fee}
use vm_quant_trader.Simulated.Broker.{Broker, new_broker}
use vm_quant_trader.Simulated.Update.{Ticket, update}
use vm_quant_trader.Simulated.Update.Conserves.{Conserves, update-Conserves}
use vm_quant_trader.Simulated.Update.Shares.{holding, queue_of, waiting}
use vm_quant_trader.Simulated.Update.Returns.{IsReady}
use vm_quant_trader.Simulated.Update.Liveness.{update_returns}
use vm_quant_trader.Simulated.Sound.{IsSound}
use vm_quant_trader.Simulated.Sound.Calls.{
  Call, deposit, create, fund, submit, tick, step, run, run-IsSound,
}
use vm_quant_trader.Simulated.Transfers.{money}
use vm_quant_trader.Simulated.Transfers.Solvent.{IsSolvent, inflow, money-step}
use vm_quant_trader.Simulated.Fixture.{
  pit, house, queued, order, house-IsSound, queued-IsSound, pit-IsPriced, portfolios-IsTimely,
}

abbrev opened : Broker whole
opened = record {
  current_dt = 1;
  account_id = none;
  base_currency = "KRW";
  fee_model = zero_fee;
  cash_balances = ("USD", pos 0) ∷ ("GBP", pos 0) ∷ ("EUR", pos 0) ∷ ("KRW", pos 900) ∷ [];
  portfolios = [];
  open_orders = [];
}

opens : new_broker whole 1 none "KRW" (pos 900) zero_fee ≡ ok opened
unfolding new_broker
opens = refl

abbrev calls : List (Call whole)
calls =
    deposit (pos 100)
    ∷ create "p" none
    ∷ create "p" none
    ∷ fund "p" (pos 400)
    ∷ submit "p" (order (pos 1) (pos 1))
    ∷ tick 6
    ∷ []

run-IsSound_example : IsSound (run pit calls opened)
run-IsSound_example = run-IsSound pit calls 1 none "KRW" (pos 900) zero_fee opened opens

house-IsSolvent : IsSolvent house
unfolding get get_or
house-IsSolvent = record { account = omega arith; each = λ id p e. ground (arith, e) }

money-step_example :
    let (r, b') = step pit (fund "p" (pos 300)) house in
    (money b' ≡ (if is_ok r then money house +ℤ inflow (fund "p" (pos 300)) else money house))
    × IsSolvent b'
money-step_example = money-step pit (fund "p" (pos 300)) house refl house-IsSound house-IsSolvent

abbrev mixed : List (Ticket whole)
mixed =
    ("p", order (pos 20) (pos 1))
    ∷ ("p", order (negsuc 4) (negsuc 0))
    ∷ ("p", order (pos 7) (pos 1))
    ∷ []

abbrev mixed_queue : Broker whole
mixed_queue = record house {
  open_orders =
      ("p", order (pos 20) (pos 1) ∷ order (negsuc 4) (negsuc 0) ∷ order (pos 7) (pos 1) ∷ []) ∷ [];
}

update_returns_example :
    let (r, b') = update pit 6 queued in
    (is_ok r ≡ true)
    × IsReady 6 (contains queued.portfolios) b'
    × ((id : String) → queue_of b' id ≡ [])
    × ((id j : String) → holding b' id j ≡ holding queued id j +ℤ waiting queued id j)
update_returns_example =
    update_returns pit 6 queued (pit-IsPriced 6) queued-IsSound
      (portfolios-IsTimely 6 (omega arith))

update_queued : is_ok (update pit 6 queued).0 ≡ true
update_queued =
    (update_returns pit 6 queued (pit-IsPriced 6) queued-IsSound
      (portfolios-IsTimely 6 (omega arith))).0

update-Conserves_example : Conserves (pit.is_open_at_datetime 6) queued (update pit 6 queued).1
update-Conserves_example = update-Conserves pit 6 queued queued-IsSound update_queued
