-- ===== src/Live/Fixture.antt =====
-- A venue to run the live broker on: its world is the time, which each reading of the clock and
-- each sleep moves on by one. It takes every order under the number "K1" and fills ten shares of it
-- at 700. It quotes 700 for everything.
use vm_quant_trader.Prelude.{ℕ, ◌+◌, true, false, none, some, [], ◌∷◌}
use vm_quant_trader.Prelude.Int.{pos}
use vm_quant_trader.Errors.{ok}
use vm_quant_trader.Floats.Whole.{whole}
use vm_quant_trader.Order.{Order}
use vm_quant_trader.Portfolio.{Portfolio}
use vm_quant_trader.Live.Guards.{SafetyGuard}
use vm_quant_trader.Live.Ledger.{OrderLedger, OrderRow, submitted}
use vm_quant_trader.Live.Client.{Venue, OrderReport, AccountBalance}
use vm_quant_trader.Live.Broker.{Broker, OpenOrder, Fill}

abbrev pub report : OrderReport whole
report = record {
  order_no = "K1";
  filled_quantity = 10;
  average_price = pos 700;
  remaining_quantity = 0;
  rejected_quantity = 0;
  fees = pos 2;
  is_done = true;
}

abbrev pub balance : AccountBalance whole
balance = record {
  cash = pos 10000;
  settled_cash = pos 10000;
  total_equity = pos 10000;
  holdings = [];
}

abbrev pub desk : Venue whole ℕ
desk = record {
  venue = "kis";
  mode = "paper";
  place_market_order = λ symbol quantity w. (ok "K1", w);
  get_order_report = λ order_no w. (ok report, w);
  get_balance = λ w. (ok balance, w);
  is_open_at_datetime = λ dt w. true;
  get_asset_latest_ask_price = λ dt symbol w. (ok (pos 700), w);
  get_asset_latest_mid_price = λ dt symbol w. (ok (pos 700), w);
  clear_cache = λ w. w;
  clock = λ w. (w, w + 1);
  sleep = λ w. w + 1;
  path_exists = λ w path. false;
}

abbrev pub account : Portfolio whole
account = record {
  start_dt = 1;
  current_dt = 1;
  starting_cash = pos 0;
  currency = "KRW";
  portfolio_id = "1";
  name = some "1";
  positions = [];
  history = [];
  cash = pos 10000;
}

abbrev pub guard : SafetyGuard whole
guard = record {
  kill_switch_path = some "STOP";
  max_order_value = none;
  max_orders_per_session = some 5;
  orders_submitted = 0;
  halted_reason = none;
}

abbrev pub no_orders : OrderLedger whole
no_orders = record { orders = []; fills = []; equity_curve = []; meta = [] }

abbrev pub idle : Broker whole ℕ
idle = record {
  current_dt = 1;
  account_id = "1";
  base_currency = "KRW";
  venue_name = "kis";
  mode = "paper";
  guard = guard;
  poll_throttle = 60;
  last_poll_dt = 1;
  portfolios = ("1", account) ∷ [];
  open_orders = [];
  fill_buffer = [];
  portfolio_booked = [];
  portfolio_charged = [];
  ledger = no_orders;
  world = 3;
}

abbrev pub purchase : Order whole
purchase = record {
  created_dt = 2;
  cur_dt = 2;
  asset = "005930";
  quantity = pos 20;
  commission = pos 0;
  direction = pos 1;
  order_id = "o1";
}

abbrev pub ten_open : OpenOrder whole
ten_open = record {
  order_id = "o1";
  symbol = "005930";
  quantity = pos 14;
  portfolio_id = "1";
  booked_quantity = 0;
  booked_fees = pos 0;
}

abbrev pub row : OrderRow
row = record {
  order_id = "o1";
  symbol = "005930";
  quantity = pos 14;
  state = submitted;
  order_no = some "K1";
  created_at = 3;
  updated_at = 3;
  note = none;
}

-- The broker after the purchase was submitted.
abbrev pub waiting : Broker whole ℕ
waiting = record idle {
  open_orders = ("K1", ten_open) ∷ [];
  ledger = record no_orders { orders = ("o1", row) ∷ [] };
}

abbrev pub fill : ℕ → Fill whole
fill total = record {
  order_no = "K1";
  order_id = "o1";
  portfolio_id = "1";
  symbol = "005930";
  direction = pos 1;
  price = pos 700;
  cumulative_fees = pos 2;
  cumulative_filled = total;
}

-- The broker with three fills in its buffer, of which the second came late.
abbrev pub buffered : Broker whole ℕ
buffered = record waiting { fill_buffer = fill 6 ∷ fill 4 ∷ fill 10 ∷ [] }
