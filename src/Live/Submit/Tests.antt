-- ===== src/Live/Submit/Tests.antt =====
-- A purchase of twenty shares at 700 by an account with 10,000 in cash.
use vm_quant_trader.Prelude.{◌≡◌, refl, none, some}
use vm_quant_trader.Prelude.Int.{pos}
use vm_quant_trader.Errors.{ok}
use vm_quant_trader.Floats.Whole.{whole}
use vm_quant_trader.Dict.{get}
use vm_quant_trader.PositionHandler.Holdings.{held}
use vm_quant_trader.Live.Guards.{check_order}
use vm_quant_trader.Live.Ledger.{get_order}
use vm_quant_trader.Live.Submit.{clamp_quantity, send, submit_order}
use vm_quant_trader.Live.Submit.Clamp.{Clamped, clamp_quantity-Clamped}
use vm_quant_trader.Live.Submit.Outcome.{Sent, send-Sent}
use vm_quant_trader.Live.Submit.Books.{books, books-submit_order}
use vm_quant_trader.Live.Fixture.{desk, account, idle, purchase}

account-here : get idle.portfolios "1" ≡ some account
unfolding get
account-here = refl

-- The cash pays for fourteen.
fourteen : (clamp_quantity "1" purchase (pos 700) idle).0 ≡ ok (pos 14)
unfolding clamp_quantity
fourteen = refl

clamp_quantity-Clamped_example :
    Clamped whole purchase.quantity
      (pos 700)
      (held account.positions purchase.asset)
      account.cash
      (pos 14)
clamp_quantity-Clamped_example =
    clamp_quantity-Clamped idle "1" account purchase (pos 700) (pos 14) account-here fourteen

no_row : get_order "o1" idle.ledger ≡ none
unfolding get_order
no_row = refl

send-Sent_example :
    Sent "1" purchase
      (pos 14)
      3
      idle
      (check_order (desk.path_exists idle.world) (pos 14) (pos 700) idle.guard)
      (desk.place_market_order purchase.asset (pos 14) idle.world)
      (send desk "1" purchase (pos 14) (pos 700) 3 idle)
send-Sent_example = send-Sent desk "1" purchase (pos 14) (pos 700) 3 idle no_row

books-submit_order_example : books (submit_order desk "1" purchase idle).1 ≡ books idle
books-submit_order_example = books-submit_order desk "1" purchase idle
