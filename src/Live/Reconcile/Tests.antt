-- ===== src/Live/Reconcile/Tests.antt =====
-- A launch with one order that the ledger left open, at a venue whose balance has no holdings.
use vm_quant_trader.Prelude.{ℕ, arith, =ₛ_iff, ◌≡◌, refl, true, false, some, [], ◌∷◌}
use vm_quant_trader.Prelude.Int.{ℤ, pos}
use vm_quant_trader.Dict.{Dict, get, contains}
use vm_quant_trader.PositionHandler.{transact_position}
use vm_quant_trader.Live.Broker.{Broker, OpenOrder, trading_halted}
use vm_quant_trader.Live.Reconcile.{reconcile, already_booked, already_booked_fees, readmit}
use vm_quant_trader.Live.Reconcile.Halt.{guard_after, reconcile_guard}
use vm_quant_trader.Live.Reconcile.Accounted.{IsAccounted, readmit_after_polls}
use vm_quant_trader.Live.Ledger.{get_fills}
use vm_quant_trader.Live.Ledger.Fills.{has_fill}
use vm_quant_trader.Live.Settle.{poll_tasks}
use vm_quant_trader.Live.Collect.{booked_of}
use vm_quant_trader.Floats.Whole.{whole}
use vm_quant_trader.Live.Fixture.{desk, idle, row, ten_open, waiting}

-- The recovered fill is of shares that the venue does not report.
halted : trading_halted (reconcile desk true waiting).1 ≡ true
unfolding reconcile trading_halted transact_position
halted = refl

not_halted : trading_halted (reconcile desk false waiting).1 ≡ false
unfolding reconcile trading_halted transact_position
not_halted = refl

reconcile_guard_example :
    (reconcile desk true waiting).1.guard
    ≡ guard_after true (reconcile desk true waiting).0 waiting.guard
reconcile_guard_example = reconcile_guard desk true waiting

abbrev believed : Dict ℤ
believed = ("005930", pos 10) ∷ ("000660", pos 3) ∷ []

abbrev reported : Dict ℤ
reported = ("000660", pos 3) ∷ ("035720", pos 7) ∷ []

waiting-IsAccounted : IsAccounted waiting
unfolding get contains already_booked has_fill get_fills
waiting-IsAccounted = record {
  distinct = λ k k' s s' e e' h. ground (arith, e, e', =ₛ_iff "K1" k, =ₛ_iff "K1" k');
  booked = λ k s e. ground (arith, e, =ₛ_iff "K1" k);
  seen = λ k s n e f. ground (arith, f);
}

-- The order after the poll, and a new process with the ledger that the first one left.
abbrev seen_ten : OpenOrder whole
seen_ten = record ten_open { booked_quantity = 10; booked_fees = pos 2 }

abbrev relaunched : Broker whole ℕ
unfolding poll_tasks
relaunched = record idle { ledger = (poll_tasks desk ("K1" ∷ []) waiting).1.ledger }

polled_ten : get (poll_tasks desk ("K1" ∷ []) waiting).1.open_orders "K1" ≡ some seen_ten
unfolding poll_tasks get
polled_ten = refl

readmit_after_polls_example :
    (booked_of (readmit "K1" row relaunched) "K1" ≡ 10)
    × (get (readmit "K1" row relaunched).open_orders "K1"
        ≡ some (record {
          order_id = row.order_id;
          symbol = row.symbol;
          quantity = row.quantity;
          portfolio_id = relaunched.account_id;
          booked_quantity = 10;
          booked_fees = already_booked_fees relaunched.ledger row.order_id;
        }))
unfolding relaunched
readmit_after_polls_example =
    readmit_after_polls desk ("K1" ∷ []) waiting relaunched "K1" seen_ten row waiting-IsAccounted
      polled_ten refl refl
