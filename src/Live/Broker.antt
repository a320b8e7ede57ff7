-- ===== src/Live/Broker.antt =====
-- The live broker (vmtrader/broker/live_broker.py): its state, its clock, its portfolio.
-- Operational messages are not modelled. The fill worker's connection is to the same ledger.
use Prim.Native.String.{◌++◌ as append}
use vm_quant_trader.Prelude.{
  ◌=ₛ◌, ℕ, String, Bool, true, false, Option, none, some, List, [], ◌∷◌, ltb, if◌then◌else◌,
}
use vm_quant_trader.Prelude.Int.{ℤ}
use vm_quant_trader.Errors.{
  raise, Method, Result, ok, err, bad, duplicate_portfolio, unknown_currency, unknown_portfolio,
  pure, ◌>>=◌, ◌>>◌,
}
use vm_quant_trader.Floats.{Floats, zero_num}
use vm_quant_trader.Dict.{Dict, get, contains, put, values}
use vm_quant_trader.Transaction.{Transaction}
use vm_quant_trader.PositionHandler.{Positions, transact_position}
use vm_quant_trader.Portfolio.{
  Portfolio, HoldingRow, portfolio_to_dict, new_portfolio, market_value_of, total_equity,
}
use vm_quant_trader.Live.Guards.{SafetyGuard, halt, is_halted}
use vm_quant_trader.Live.Ledger.{OrderLedger, Identity, stamp_identity}
use vm_quant_trader.Live.Client.{Venue, Holding, AccountBalance}

-- The dictionary that `submit_order` keeps for an order.
pub record OpenOrder (F : Floats) : Type 0 where
  pub order_id : String
  pub symbol : String
  pub quantity : ℤ
  pub portfolio_id : String
  pub booked_quantity : ℕ
  pub booked_fees : F.Num

-- What the poller hands to the thread that books.
pub record Fill (F : Floats) : Type 0 where
  pub order_no : String
  pub order_id : String
  pub portfolio_id : String
  pub symbol : String
  pub direction : ℤ
  pub price : F.Num
  pub cumulative_fees : F.Num
  pub cumulative_filled : ℕ

pub record Broker (F : Floats) (W : Type 0) : Type 0 where
  pub current_dt : ℕ
  pub account_id : String
  pub base_currency : String
  pub venue_name : String
  pub mode : String
  pub guard : SafetyGuard F
  pub poll_throttle : ℕ
  pub last_poll_dt : ℕ
  pub portfolios : Dict (Portfolio F)
  pub open_orders : Dict (OpenOrder F)
  pub fill_buffer : List (Fill F)
  -- what the portfolio has, by order number
  pub portfolio_booked : Dict ℕ
  pub portfolio_charged : Dict F.Num
  pub ledger : OrderLedger F
  pub world : W

-- A call into the world.
abbrev pub ask : {F : Floats} {W A : Type 0} → Method W A → Method (Broker F W) A
ask f b = let (r, w) = f b.world in (r, record b { world = w })

-- `sum(equity.values())`, from the left and from 0
abbrev equities : {F : Floats} → List (Portfolio F) → F.Num → F.Num
equities [] acc = acc
equities {F} (p ∷ ps) acc = equities ps (F.add acc (F.add (market_value_of p) p.cash))

module _ {F : Floats} {W : Type 0} where
  -- `trading_halted`, and its setter
  unfoldable pub trading_halted : Broker F W → Bool
  unfolding is_halted
  trading_halted b = is_halted b.guard

  unfoldable pub set_trading_halted : Bool → Broker F W → Broker F W
  unfolding halt
  set_trading_halted true b = record b {
    guard = halt "Reconciliation found the engine holding more than the venue reports." b.guard;
  }
  set_trading_halted false b = record b { guard = record b.guard { halted_reason = none } }

  -- `create_portfolio(portfolio_id, name)`
  unfoldable pub create_portfolio : String → Option String → Method (Broker F W) (Unit {0})
  unfolding contains put new_portfolio
  create_portfolio id name b =
      if contains b.portfolios id then (err (bad duplicate_portfolio), b) else (
        ok tt,
        record b {
          portfolios =
              put b.portfolios id
                (new_portfolio F b.current_dt (zero_num F) b.base_currency id name);
        },
      )

  -- `self.portfolios[portfolio_id]`
  unfoldable pub the_portfolio : String → Method (Broker F W) (Portfolio F)
  unfolding get
  the_portfolio id b =
      (elim (get b.portfolios id) [ none ↦ err (bad unknown_portfolio) | some p ↦ ok p ], b)

  -- A method of a portfolio of the broker's; what it wrote stays, also when it raises.
  unfoldable pub on_portfolio :
      String → Method (Portfolio F) (Unit {0}) → Method (Broker F W) (Unit {0})
  unfolding get put
  on_portfolio id f b = elim (get b.portfolios id) [
    | none ↦ (err (bad unknown_portfolio), b)
    | some p ↦ let (r, p') = f p in (r, record b { portfolios = put b.portfolios id p' })
  ]

  unfoldable pub get_portfolio_cash_balance : String → Method (Broker F W) F.Num
  unfolding the_portfolio
  get_portfolio_cash_balance id = do p ← the_portfolio id; pure p.cash

  unfoldable pub get_portfolio_total_equity : String → Method (Broker F W) F.Num
  unfolding the_portfolio total_equity
  get_portfolio_total_equity id = do p ← the_portfolio id; pure (total_equity p)

  unfoldable pub get_portfolio_total_market_value : String → Method (Broker F W) F.Num
  unfolding the_portfolio market_value_of
  get_portfolio_total_market_value id = do p ← the_portfolio id; pure (market_value_of p)

  -- `get_portfolio_as_dict(portfolio_id)`
  unfoldable pub get_portfolio_as_dict : String → Method (Broker F W) (Dict (HoldingRow F))
  unfolding the_portfolio portfolio_to_dict
  get_portfolio_as_dict id = do p ← the_portfolio id; pure (portfolio_to_dict p)

  -- `list_all_portfolios()`
  unfoldable pub list_all_portfolios : Broker F W → List (Portfolio F)
  unfolding values
  list_all_portfolios b = values b.portfolios

  -- `get_account_cash_balance(currency)`, in one currency: the account has its base currency only.
  unfoldable pub get_account_cash_balance : String → Method (Broker F W) F.Num
  unfolding the_portfolio
  get_account_cash_balance currency b =
      (do
        p ← the_portfolio b.account_id
        if b.base_currency =ₛ currency then pure p.cash else raise (bad unknown_currency))
        b

  -- `get_account_total_equity()['master']`
  unfoldable pub master_equity : Broker F W → F.Num
  unfolding values market_value_of
  master_equity b = equities (values b.portfolios) (zero_num F)

module _ {F : Floats} where
  -- The seed transaction of one holding.
  abbrev seed_txn : ℕ → Holding F → Transaction F
  seed_txn dt h = record {
    asset = h.symbol;
    quantity = h.quantity;
    dt = dt;
    price = h.average_price;
    order_id = append "seed-" h.symbol;
    commission = zero_num F;
  }

  pub seed_holdings : ℕ → List (Holding F) → Method (Positions F) (Unit {0})
  unfolding transact_position
  seed_holdings dt [] = pure tt
  seed_holdings dt (h ∷ hs) = do transact_position (seed_txn dt h); seed_holdings dt hs

  abbrev pub seed_portfolio : ℕ → AccountBalance F → Method (Portfolio F) (Unit {0})
  seed_portfolio dt balance p =
      let (r, d) = seed_holdings dt balance.holdings [] in
      (r, record p { cash = balance.cash; positions = d })

module _ {F : Floats} {W : Type 0} (venue : Venue F W) where
  -- `_now()`: a clock that goes back is not believed.
  unfoldable pub now : Method (Broker F W) ℕ
  now b =
      let (t, w) = venue.clock b.world in
      (ok (if ltb t b.current_dt then b.current_dt else t), record b { world = w })

  -- `seed_from_venue()`
  unfoldable pub seed_from_venue : Method (Broker F W) (Unit {0})
  unfolding on_portfolio seed_holdings
  seed_from_venue b =
      (do
        balance ← ask venue.get_balance
        on_portfolio b.account_id (seed_portfolio b.current_dt balance))
        b

-- The fields that `LiveBroker(…)` sets before it calls a method.
abbrev bare_broker :
    {F : Floats} {W : Type 0}
    → Venue F W
    → ℕ
    → String
    → String
    → SafetyGuard F
    → ℕ
    → OrderLedger F
    → W
    → Broker F W
bare_broker venue start_dt account_id base_currency guard throttle ledger world = record {
  current_dt = start_dt;
  account_id = account_id;
  base_currency = base_currency;
  venue_name = venue.venue;
  mode = venue.mode;
  guard = guard;
  poll_throttle = throttle;
  last_poll_dt = start_dt;
  portfolios = [];
  open_orders = [];
  fill_buffer = [];
  portfolio_booked = [];
  portfolio_charged = [];
  ledger = ledger;
  world = world;
}

abbrev stamp : {F : Floats} {W : Type 0} → Method (Broker F W) (Unit {0})
unfolding stamp_identity
stamp b =
    let i : Identity = record { venue = b.venue_name; mode = b.mode; account_id = b.account_id } in
    let (r, l) = stamp_identity i b.ledger in (r, record b { ledger = l })

-- `LiveBroker(…)`, with the optional arguments given and the venue's own name and mode: the broker
-- with its one portfolio, or a ledger that belongs to another deployment.
unfoldable pub new_broker :
    {F : Floats} {W : Type 0}
    → Venue F W
    → ℕ
    → String
    → String
    → SafetyGuard F
    → ℕ
    → OrderLedger F
    → W
    → Result (Unit {0}) × Broker F W
unfolding create_portfolio stamp
new_broker venue start_dt account_id base_currency guard throttle ledger world =
    (do create_portfolio account_id (some account_id); stamp)
      (bare_broker venue start_dt account_id base_currency guard throttle ledger world)
