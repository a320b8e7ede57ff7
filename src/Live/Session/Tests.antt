-- ===== src/Live/Session/Tests.antt =====
-- An update between cycles, at a broker with one open order.
use vm_quant_trader.Prelude.{◌≡◌, refl, false}
use vm_quant_trader.Errors.{ok}
use vm_quant_trader.Live.Session.{update, mark_to_market}
use vm_quant_trader.Live.Session.Marks.{account_of, account_of-mark_to_market}
use vm_quant_trader.Live.Fixture.{desk, waiting}

-- Within the throttle, only the timestamp moves.
throttled : update desk 30 false waiting ≡ (ok tt, record waiting { current_dt = 30 })
unfolding update
throttled = refl

account_of-mark_to_market_example :
    account_of (mark_to_market desk waiting).1 "1" "005930" ≡ account_of waiting "1" "005930"
account_of-mark_to_market_example = account_of-mark_to_market desk waiting "1" "005930"
