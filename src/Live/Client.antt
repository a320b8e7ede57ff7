-- ===== src/Live/Client.antt =====
-- What the engine asks of the world: the venue (vmtrader/broker/live/client.py), the exchange, the
-- data handler, the clock and the file system. None of it is part of the broker, so all of it is a
-- parameter: functions that may change the world `W` and may raise.
use vm_quant_trader.Prelude.{ℕ, String, Bool, List}
use vm_quant_trader.Prelude.Int.{ℤ}
use vm_quant_trader.Errors.{Method}
use vm_quant_trader.Floats.{Floats}

-- The quantities filled, remaining and rejected are cumulative and not negative.
pub record OrderReport (F : Floats) : Type 0 where
  pub order_no : String
  pub filled_quantity : ℕ
  pub average_price : F.Num
  pub remaining_quantity : ℕ
  pub rejected_quantity : ℕ
  pub fees : F.Num
  pub is_done : Bool

pub record Holding (F : Floats) : Type 0 where
  pub symbol : String
  pub quantity : ℤ
  pub average_price : F.Num

pub record AccountBalance (F : Floats) : Type 0 where
  pub cash : F.Num
  pub settled_cash : F.Num
  pub total_equity : F.Num
  pub holdings : List (Holding F)

pub record Venue (F : Floats) (W : Type 0) : Type 0 where
  pub venue : String
  pub mode : String
  pub place_market_order : String → ℤ → Method W String
  pub get_order_report : String → Method W (OrderReport F)
  pub get_balance : Method W (AccountBalance F)
  -- `exchange.is_open_at_datetime`
  pub is_open_at_datetime : ℕ → W → Bool
  -- the data handler
  pub get_asset_latest_ask_price : ℕ → String → Method W F.Num
  pub get_asset_latest_mid_price : ℕ → String → Method W F.Num
  pub clear_cache : W → W
  -- `clock()`
  pub clock : W → ℕ × W
  -- `sleep(poll_interval)`
  pub sleep : W → W
  -- `os.path.exists(path)`
  pub path_exists : W → String → Bool
