-- ===== src/Portfolio.antt =====
-- A portfolio (vmtrader/broker/portfolio/portfolio.py) and the events of its history
-- (portfolio_event.py): cash, positions and a trail. A description is kept as what it is made from,
-- not as the text that Python formats.
pub mod Cash
pub mod Trades
pub mod Timely
pub mod Marks
mod Tests
use vm_quant_trader.Prelude.{
  ℕ, String, Bool, true, false, Option, none, some, List, [], ◌∷◌, ◌++◌, ltb, not, if◌then◌else◌,
}
use vm_quant_trader.Prelude.Int.{ℤ, pos, negsuc, ltb_ℤ}
use vm_quant_trader.Errors.{
  Method, Result, ok, err, bad, earlier_timestamp, negative_amount, not_enough_cash,
  price_not_positive, raise_if, modify, ◌>>=◌, ◌>>◌, continue,
}
use vm_quant_trader.Floats.{Floats, zero_num}
use vm_quant_trader.Dict.{Dict, get, put}
use vm_quant_trader.Transaction.{Transaction, sign, cost_with_commission}
use vm_quant_trader.Position.{
  Position, net_quantity, market_value, unrealised_pnl, realised_pnl, total_pnl,
  update_current_price,
}
use vm_quant_trader.PositionHandler.{
  Positions, transact_position, total_market_value, total_unrealised_pnl, total_realised_pnl,
  total_pnl_of,
}

pub data EventType : Type 0 where
  subscription : EventType
  withdrawal : EventType
  asset_transaction : EventType

pub data Description (F : Floats) : Type 0 where
  subscribed : Description F
  withdrawn : Description F
  -- whether long, and the quantity, asset, price and timestamp
  traded : Bool → ℤ → String → F.Num → ℕ → Description F

pub record PortfolioEvent (F : Floats) : Type 0 where
  pub dt : ℕ
  pub type : EventType
  pub description : Description F
  pub debit : F.Num
  pub credit : F.Num
  pub balance : F.Num

pub record Portfolio (F : Floats) : Type 0 where
  pub start_dt : ℕ
  pub current_dt : ℕ
  pub starting_cash : F.Num
  pub currency : String
  pub portfolio_id : String
  pub name : Option String
  pub positions : Positions F
  pub history : List (PortfolioEvent F)
  pub cash : F.Num

-- A row of `portfolio_to_dict`.
pub record HoldingRow (F : Floats) : Type 0 where
  pub quantity : ℤ
  pub market_value : F.Num
  pub unrealised_pnl : F.Num
  pub realised_pnl : F.Num
  pub total_pnl : F.Num

-- `PortfolioEvent.create_subscription(dt, credit, balance)`
unfoldable pub create_subscription : (F : Floats) → ℕ → F.Num → F.Num → PortfolioEvent F
create_subscription F dt credit balance = record {
  dt = dt;
  type = subscription;
  description = subscribed;
  debit = zero_num F;
  credit = F.round_cents credit;
  balance = F.round_cents balance;
}

-- `PortfolioEvent.create_withdrawal(dt, debit, balance)`
unfoldable pub create_withdrawal : (F : Floats) → ℕ → F.Num → F.Num → PortfolioEvent F
create_withdrawal F dt debit balance = record {
  dt = dt;
  type = withdrawal;
  description = withdrawn;
  debit = F.round_cents debit;
  credit = zero_num F;
  balance = F.round_cents balance;
}

-- `Portfolio(start_dt, starting_cash, currency, portfolio_id, name)`
unfoldable pub new_portfolio :
    (F : Floats) → ℕ → F.Num → String → String → Option String → Portfolio F
unfolding create_subscription
new_portfolio F start_dt starting_cash currency portfolio_id name = record {
  start_dt = start_dt;
  current_dt = start_dt;
  starting_cash = starting_cash;
  currency = currency;
  portfolio_id = portfolio_id;
  name = name;
  positions = [];
  history =
      if F.lt (zero_num F) starting_cash
      then create_subscription F start_dt starting_cash starting_cash ∷ []
      else [];
  cash = starting_cash;
}

module _ {F : Floats} where
  open F use {Num, of_int, add, sub, mul, lt, le, round_cents}

  unfoldable pub market_value_of : Portfolio F → Num
  unfolding total_market_value
  market_value_of p = total_market_value p.positions

  -- `total_equity`
  unfoldable pub total_equity : Portfolio F → Num
  unfolding market_value_of
  total_equity p = add (market_value_of p) p.cash

  unfoldable pub unrealised_pnl_of : Portfolio F → Num
  unfolding total_unrealised_pnl
  unrealised_pnl_of p = total_unrealised_pnl p.positions

  unfoldable pub realised_pnl_of : Portfolio F → Num
  unfolding total_realised_pnl
  realised_pnl_of p = total_realised_pnl p.positions

  unfoldable pub pnl_of : Portfolio F → Num
  unfolding total_pnl_of
  pnl_of p = total_pnl_of p.positions

  -- `if dt < self.current_dt: raise …` and then `self.current_dt = dt`
  advance : ℕ → Method (Portfolio F) (Unit {0})
  advance dt p =
      if ltb dt p.current_dt
      then (err (bad earlier_timestamp), p)
      else (ok tt, record p { current_dt = dt })

  abbrev remember : PortfolioEvent F → Portfolio F → Portfolio F
  remember e p = record p { history = p.history ++ e ∷ [] }

  -- `subscribe_funds(dt, amount)`
  unfoldable pub subscribe_funds : ℕ → Num → Method (Portfolio F) (Unit {0})
  unfolding advance create_subscription
  subscribe_funds dt amount = do
    advance dt
    raise_if (lt amount (zero_num F)) (bad negative_amount)
    modify (λ p. record p { cash = add p.cash amount })
    modify (λ p. remember (create_subscription F p.current_dt amount p.cash) p)

  -- `withdraw_funds(dt, amount)`
  unfoldable pub withdraw_funds : ℕ → Num → Method (Portfolio F) (Unit {0})
  unfolding advance create_withdrawal
  withdraw_funds dt amount = do
    advance dt
    raise_if (lt amount (zero_num F)) (bad negative_amount)
    (λ p. raise_if (lt p.cash amount) (bad not_enough_cash) p)
    modify (λ p. record p { cash = sub p.cash amount })
    modify (λ p. remember (create_withdrawal F p.current_dt amount p.cash) p)

  -- The event that `transact_asset` appends, when the cash has been taken.
  unfoldable pub trade_event : Transaction F → Num → PortfolioEvent F
  unfolding sign cost_with_commission
  trade_event t cash =
      let cost = round_cents (cost_with_commission t) in
      let long = ltb_ℤ (pos 0) (sign t.quantity) in
      record {
        dt = t.dt;
        type = asset_transaction;
        description = traded long t.quantity t.asset t.price t.dt;
        debit = if long then cost else zero_num F;
        credit = if long then zero_num F else mul (of_int (negsuc 0)) cost;
        balance = round_cents cash;
      }

  -- `self.pos_handler.transact_position(txn)`
  abbrev on_positions : Method (Positions F) (Unit {0}) → Method (Portfolio F) (Unit {0})
  on_positions f p = let (r, d) = f p.positions in (r, record p { positions = d })

  -- `transact_asset(txn)`. Too little cash only prints a warning.
  unfoldable pub transact_asset : Transaction F → Method (Portfolio F) (Unit {0})
  unfolding advance trade_event
  transact_asset t = do
    advance t.dt
    on_positions (transact_position t)
    modify (λ p. record p { cash = sub p.cash (cost_with_commission t) })
    modify (λ p. remember (trade_event t p.cash) p)

  unfoldable pub row_of : Position F → HoldingRow F
  unfolding net_quantity market_value unrealised_pnl realised_pnl total_pnl
  row_of p = record {
    quantity = net_quantity p;
    market_value = market_value p;
    unrealised_pnl = unrealised_pnl p;
    realised_pnl = realised_pnl p;
    total_pnl = total_pnl p;
  }

  rows : Positions F → Dict (HoldingRow F)
  rows [] = []
  rows ((k, p) ∷ d) = (k, row_of p) ∷ rows d

  -- `portfolio_to_dict()`
  unfoldable pub portfolio_to_dict : Portfolio F → Dict (HoldingRow F)
  unfolding rows row_of
  portfolio_to_dict p = rows p.positions

  -- Write a position back, with the outcome of the call that changed it.
  abbrev store :
      String → Portfolio F → Result (Unit {0}) × Position F → Result (Unit {0}) × Portfolio F
  store asset p (r, q) = (r, record p { positions = put p.positions asset q })

  -- `update_market_value_of_asset(asset, current_price, current_dt)`
  unfoldable pub update_market_value_of_asset : String → Num → ℕ → Method (Portfolio F) (Unit {0})
  unfolding get put update_current_price
  update_market_value_of_asset asset price dt p = elim (get p.positions asset) [
    | none ↦ (ok tt, p)
    | some q ↦
        if lt price (zero_num F)
        then (err (bad price_not_positive), p)
        else if ltb dt p.current_dt
        then (err (bad earlier_timestamp), p)
        else store asset p (update_current_price price (some dt) q)
  ]
