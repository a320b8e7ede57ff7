-- ===== src/Live/Settle/Tests.antt =====
-- Settlement of one open order, which the venue fills at the first poll.
use vm_quant_trader.Prelude.{◌≡◌, refl, false, arith, =ₛ_iff}
use vm_quant_trader.Errors.{ok}
use vm_quant_trader.Dict.{get, contains}
use vm_quant_trader.PositionHandler.{transact_position}
use vm_quant_trader.Live.Ledger.{get_order}
use vm_quant_trader.Live.Settle.{settle_loop, settle}
use vm_quant_trader.Live.Settle.Listed.{IsListed}
use vm_quant_trader.Live.Settle.Endings.{Settled, settle-Settled}
use vm_quant_trader.Live.Settle.Fuel.{IsRunning, is_out_of_fuel, settle_loop_ends}
use vm_quant_trader.Live.Fixture.{desk, waiting}

settled : (settle desk 60 50 waiting).0 ≡ ok 1
unfolding settle transact_position
settled = refl

waiting-IsListed : IsListed waiting
unfolding get contains get_order
waiting-IsListed = record {
  unique = (refl, tt);
  distinct = λ k k' s s' e e' h. ground (arith, e, e', =ₛ_iff "K1" k, =ₛ_iff "K1" k');
  listed = λ k s e. ground (arith, e, =ₛ_iff "K1" k, =ₛ_iff "o1" s.order_id);
}

settle-Settled_example :
    let (ending, n, last) = settle_loop desk 60 50 0 waiting in
    Settled ending last (settle desk 60 50 waiting)
settle-Settled_example = settle-Settled desk 60 50 waiting waiting-IsListed

desk-IsRunning : IsRunning desk (λ w. w)
desk-IsRunning = record {
  reads = λ w. refl;
  ticks = λ w. omega arith;
  reports = λ k w. omega arith;
  sleeps = λ w. omega arith;
}

settle_loop_ends_example : is_out_of_fuel (settle_loop desk 60 50 0 waiting).0 ≡ false
settle_loop_ends_example =
    settle_loop_ends desk (λ w. w) desk-IsRunning 60 50 0 waiting (omega arith) (omega arith)
