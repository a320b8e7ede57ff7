-- ===== src/Simulated/Fixture.antt =====
-- A market that is open from time 5 on and quotes 700 for everything, and a broker there with one
-- portfolio.
use vm_quant_trader.Prelude.{ℕ, ◌≡◌, ◌≤◌, refl, String, none, some, [], ◌∷◌, leb, arith, =ₛ_iff}
use vm_quant_trader.Prelude.Int.{ℤ, pos, negsuc}
use vm_quant_trader.Floats.Whole.{whole}
use vm_quant_trader.Dict.{get, contains}
use vm_quant_trader.Order.{Order}
use vm_quant_trader.FeeModel.{zero_fee}
use vm_quant_trader.PositionHandler.Holdings.{empty-IsFiled}
use vm_quant_trader.Portfolio.{Portfolio}
use vm_quant_trader.Portfolio.Timely.{IsTimely}
use vm_quant_trader.Simulated.Market.{Market}
use vm_quant_trader.Simulated.Broker.{Broker}
use vm_quant_trader.Simulated.Update.{quoted, unpriced}
use vm_quant_trader.Simulated.Update.Returns.{IsPriced}
use vm_quant_trader.Simulated.Sound.{IsSound}

abbrev pub pit : Market whole
pit = record {
  is_open_at_datetime = λ dt. leb 5 dt;
  get_asset_latest_ask_price = λ dt asset. pos 700;
  get_asset_latest_bid_ask_price = λ dt asset. (pos 700, pos 700);
  get_asset_latest_mid_price = λ dt asset. pos 700;
}

abbrev pub fund_one : Portfolio whole
fund_one = record {
  start_dt = 1;
  current_dt = 1;
  starting_cash = pos 0;
  currency = "KRW";
  portfolio_id = "p";
  name = none;
  positions = [];
  history = [];
  cash = pos 50000;
}

abbrev pub house : Broker whole
house = record {
  current_dt = 2;
  account_id = none;
  base_currency = "KRW";
  fee_model = zero_fee;
  cash_balances = ("USD", pos 0) ∷ ("KRW", pos 1000) ∷ [];
  portfolios = ("p", fund_one) ∷ [];
  open_orders = ("p", []) ∷ [];
}

abbrev pub order : ℤ → ℤ → Order whole
order quantity direction = record {
  created_dt = 4;
  cur_dt = 4;
  asset = "005930";
  quantity = quantity;
  commission = pos 0;
  direction = direction;
  order_id = "o";
}

-- The same broker with two orders in its queue.
abbrev pub queued : Broker whole
queued = record house {
  open_orders = ("p", order (pos 20) (pos 1) ∷ order (negsuc 4) (negsuc 0) ∷ []) ∷ [];
}

pub house-IsSound : IsSound house
unfolding get contains
house-IsSound = record {
  account = refl;
  paired = λ id. ground arith;
  filed = λ id p e. ground (arith, e, empty-IsFiled whole);
  named = λ id p e. ground (arith, e, =ₛ_iff "p" id);
}

pub queued-IsSound : IsSound queued
unfolding get contains
queued-IsSound = record {
  account = refl;
  paired = λ id. ground arith;
  filed = house-IsSound.filed;
  named = house-IsSound.named;
}

pub pit-IsPriced : (dt : ℕ) → IsPriced pit dt
unfolding quoted unpriced
pit-IsPriced dt = record {
  mid = λ asset. (refl, refl);
  quote = λ o. ground arith;
  known = λ o. refl;
  rounded = λ o. (_, refl);
}

fund_one-IsTimely : (dt : ℕ) → 1 ≤ dt → IsTimely fund_one dt
unfolding get
fund_one-IsTimely dt h = record { clock = h; positions = λ j q e. cc }

pub portfolios-IsTimely :
    (dt : ℕ)
    → 1 ≤ dt
    → (id : String) (p : Portfolio whole) → get house.portfolios id ≡ some p
    → IsTimely p dt
unfolding get
portfolios-IsTimely dt h id p e = ground (arith, e, fund_one-IsTimely dt h)
