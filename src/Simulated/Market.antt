-- ===== src/Simulated/Market.antt =====
-- Prices and opening hours for a backtest: the data handler
-- (vmtrader/data/backtest_data_handler.py) over its data sources, and the exchange. A source is a
-- parameter: it answers or raises.
use vm_quant_trader.Prelude.{ℕ, String, Bool, List, [], ◌∷◌, if◌then◌else◌}
use vm_quant_trader.Prelude.Int.{pos}
use vm_quant_trader.Errors.{Result, ok, err}
use vm_quant_trader.Floats.{Floats}

-- What the broker and the order sizers ask.
pub record Market (F : Floats) : Type 0 where
  pub is_open_at_datetime : ℕ → Bool
  pub get_asset_latest_ask_price : ℕ → String → F.Num
  pub get_asset_latest_bid_ask_price : ℕ → String → F.Num × F.Num
  pub get_asset_latest_mid_price : ℕ → String → F.Num

pub record Source (F : Floats) : Type 0 where
  pub get_bid : ℕ → String → Result F.Num
  pub get_ask : ℕ → String → Result F.Num

module _ {F : Floats} (nan : F.Num) where
  -- The loop over the sources; `answer` is what the last one gave.
  first_price : (Source F → Result F.Num) → List (Source F) → F.Num → F.Num
  first_price ask [] answer = answer
  first_price ask (s ∷ rest) answer = elim (ask s) [
    | ok x ↦ if F.is_nan x then first_price ask rest x else x
    | err e ↦ first_price ask rest nan
  ]

  unfoldable pub get_asset_latest_bid_price : List (Source F) → ℕ → String → F.Num
  unfolding first_price
  get_asset_latest_bid_price sources dt asset = first_price (λ s. s.get_bid dt asset) sources nan

  unfoldable pub get_asset_latest_ask_price : List (Source F) → ℕ → String → F.Num
  unfolding first_price
  get_asset_latest_ask_price sources dt asset = first_price (λ s. s.get_ask dt asset) sources nan

  -- The bid, twice.
  unfoldable pub get_asset_latest_bid_ask_price : List (Source F) → ℕ → String → F.Num × F.Num
  unfolding get_asset_latest_bid_price
  get_asset_latest_bid_ask_price sources dt asset =
      let bid = get_asset_latest_bid_price sources dt asset in (bid, bid)

  unfoldable pub get_asset_latest_mid_price : List (Source F) → ℕ → String → F.Num
  unfolding get_asset_latest_bid_ask_price
  get_asset_latest_mid_price sources dt asset =
      let (bid, ask) = get_asset_latest_bid_ask_price sources dt asset in
      F.div (F.add bid ask) (F.of_int (pos 2))

  -- `BacktestDataHandler(universe, data_sources)`, and the opening hours of an exchange.
  unfoldable pub backtest_market : List (Source F) → (ℕ → Bool) → Market F
  unfolding get_asset_latest_ask_price get_asset_latest_bid_ask_price get_asset_latest_mid_price
  backtest_market sources opening = record {
    is_open_at_datetime = opening;
    get_asset_latest_ask_price = get_asset_latest_ask_price sources;
    get_asset_latest_bid_ask_price = get_asset_latest_bid_ask_price sources;
    get_asset_latest_mid_price = get_asset_latest_mid_price sources;
  }
