-- ===== src/Live/Collect/Tests.antt =====
-- Three fills of one purchase, of which the second comes late.
use vm_quant_trader.Prelude.{ℕ, ◌≡◌, refl, true, some, ltb, if◌then◌else◌, arith, =ₛ_iff}
use vm_quant_trader.Prelude.Int.{pos}
use vm_quant_trader.Errors.{ok, is_ok}
use vm_quant_trader.Floats.Whole.{whole}
use vm_quant_trader.Dict.{get, get_or}
use vm_quant_trader.PositionHandler.{transact_position}
use vm_quant_trader.PositionHandler.Holdings.{held, empty-IsFiled}
use vm_quant_trader.Portfolio.Timely.{IsTimely}
use vm_quant_trader.Live.Collect.{booked_of, poll_once, drain_fill_buffer}
use vm_quant_trader.Live.Collect.Watermark.{latest, drain_fill_buffer_watermark}
use vm_quant_trader.Live.Collect.Shares.{Terms, Agrees}
use vm_quant_trader.Live.Collect.Holdings.{Has, Kept, holding, drain_fill_buffer-Kept}
use vm_quant_trader.Live.Collect.Returns.{IsReady, IsPriced, drain_fill_buffer_returns}
use vm_quant_trader.Live.Collect.Poll.{InStep, poll_then_drain}
use vm_quant_trader.Live.Fixture.{desk, report, account, ten_open, waiting, buffered, fill}

-- Two of the three fills are booked, and ten shares are held.
drained : (drain_fill_buffer desk buffered).0 ≡ ok 2
unfolding drain_fill_buffer transact_position
drained = refl

drained_ten : holding (drain_fill_buffer desk buffered).1 "1" "005930" ≡ pos 10
unfolding drain_fill_buffer transact_position get held
drained_ten = refl

drained_ok : is_ok (drain_fill_buffer desk buffered).0 ≡ true
unfolding drain_fill_buffer transact_position
drained_ok = refl

drain_fill_buffer_watermark_example :
    booked_of (drain_fill_buffer desk buffered).1 "K1"
    ≡ latest buffered.fill_buffer "K1" (booked_of buffered "K1")
drain_fill_buffer_watermark_example = drain_fill_buffer_watermark desk buffered "K1" drained_ok

account-here : get buffered.portfolios "1" ≡ some account
unfolding get
account-here = refl

abbrev terms : Terms
terms order_no = ("005930", true)

agrees : (n : ℕ) → Agrees terms "1" (fill n)
agrees n = record { symbol = refl; direction = refl; portfolio = refl }

has : Has buffered "1"
has = record { portfolio = account; at = account-here; filed = empty-IsFiled whole }

drain_fill_buffer-Kept_example : Kept terms "1" buffered (drain_fill_buffer desk buffered).1
drain_fill_buffer-Kept_example =
    drain_fill_buffer-Kept desk terms "1" buffered has (agrees 6, (agrees 4, (agrees 10, tt)))
      drained_ok

account-IsTimely : IsTimely account 1
unfolding get
account-IsTimely = record { clock = omega arith; positions = λ j q e. cc }

ready : IsReady "1" buffered
ready = record {
  portfolio = account;
  at = account-here;
  filed = empty-IsFiled whole;
  timely = account-IsTimely;
}

priced : (n : ℕ) → IsPriced "1" (fill n)
priced n = record { portfolio = refl; price = refl }

drain_fill_buffer_returns_example :
    (is_ok (drain_fill_buffer desk buffered).0 ≡ true)
    × IsReady "1" (drain_fill_buffer desk buffered).1
drain_fill_buffer_returns_example =
    drain_fill_buffer_returns desk "1" buffered ready (priced 6, (priced 4, (priced 10, tt)))

waiting-InStep : InStep waiting
unfolding booked_of get_or get
waiting-InStep = record { seen = λ k s e. ground (arith, e, =ₛ_iff "K1" k) }

open_here : get waiting.open_orders "K1" ≡ some ten_open
unfolding get
open_here = refl

waiting-Has : Has waiting "1"
unfolding get
waiting-Has = record { portfolio = account; at = refl; filed = empty-IsFiled whole }

polled_ok : is_ok (drain_fill_buffer desk (poll_once desk "K1" waiting).1).0 ≡ true
unfolding poll_once drain_fill_buffer transact_position
polled_ok = refl

poll_then_drain_example :
    let b' = (drain_fill_buffer desk (poll_once desk "K1" waiting).1).1 in
    (booked_of b' "K1" ≡ (
      if ltb ten_open.booked_quantity report.filled_quantity
      then report.filled_quantity
      else ten_open.booked_quantity))
    × Kept terms "1" waiting b'
poll_then_drain_example =
    poll_then_drain desk terms "1" "K1" ten_open report waiting 3 waiting-InStep waiting-Has tt
      (record { symbol = refl; direction = refl; portfolio = refl }) open_here refl polled_ok
