-- ===== src/Simulated/Broker.antt =====
-- The state of the simulated broker, its constructor, its transfers and its queries
-- (vmtrader/broker/simulated_broker.py). Printing is not modelled.
use Prim.Native.Nat.{Ordering}
use Prim.Native.String.{compare}
use vm_quant_trader.Prelude.{
  ℕ, String, Bool, true, false, Option, none, some, List, [], ◌∷◌, not, if◌then◌else◌,
}
use vm_quant_trader.Errors.{
  Method, Result, ok, err, bad, negative_amount, not_enough_cash, duplicate_portfolio,
  unknown_portfolio, unknown_currency, negative_funds, foreign, pure, raise_if, modify, ◌>>=◌, ◌>>◌,
}
use vm_quant_trader.Floats.{Floats, zero_num}
use vm_quant_trader.Dict.{Dict, get, contains, put, values}
use vm_quant_trader.Order.{Order}
use vm_quant_trader.FeeModel.{FeeModel, listed}
use vm_quant_trader.Portfolio.{
  Portfolio, HoldingRow, new_portfolio, subscribe_funds, withdraw_funds, portfolio_to_dict,
  market_value_of, total_equity,
}

pub record Broker (F : Floats) : Type 0 where
  pub current_dt : ℕ
  pub account_id : Option String
  pub base_currency : String
  pub fee_model : FeeModel F
  pub cash_balances : Dict F.Num
  pub portfolios : Dict (Portfolio F)
  -- a queue of orders for each portfolio, the oldest first
  pub open_orders : Dict (List (Order F))

-- `settings.SUPPORTED['CURRENCIES']`
abbrev pub supported_currencies : List String
supported_currencies = "USD" ∷ "GBP" ∷ "EUR" ∷ "KRW" ∷ []

abbrev pub no_cash : (F : Floats) → List String → Dict F.Num
no_cash F [] = []
no_cash F (c ∷ cs) = (c, zero_num F) ∷ no_cash F cs

-- `_set_cash_balances()`
unfoldable pub set_cash_balances : (F : Floats) → String → F.Num → Dict F.Num
unfolding put
set_cash_balances F base_currency initial_funds =
    let cash = no_cash F supported_currencies in
    if F.lt (zero_num F) initial_funds then put cash base_currency initial_funds else cash

-- `SimulatedBroker(start_dt, exchange, data_handler, account_id, base_currency, initial_funds,
-- fee_model)`
unfoldable pub new_broker :
    (F : Floats) → ℕ → Option String → String → F.Num → FeeModel F → Result (Broker F)
unfolding listed set_cash_balances
new_broker F start_dt account_id base_currency initial_funds fee_model =
    if not (listed base_currency supported_currencies)
    then err (bad unknown_currency)
    else if F.lt initial_funds (zero_num F)
    then err (bad negative_funds)
    else ok (record {
      current_dt = start_dt;
      account_id = account_id;
      base_currency = base_currency;
      fee_model = fee_model;
      cash_balances = set_cash_balances F base_currency initial_funds;
      portfolios = [];
      open_orders = [];
    })

-- `portfolio.portfolio_id <= other.portfolio_id`
abbrev pub not_after : String → String → Bool
not_after s t = elim (compare s t) [ Ordering.gt ↦ false | _ ↦ true ]

module _ {F : Floats} where
  open F use {Num, add, sub, lt}

  -- `self.cash_balances[self.base_currency]`
  unfoldable pub base_cash : Method (Broker F) Num
  unfolding get
  base_cash b = (
    elim (get b.cash_balances b.base_currency) [
      | none ↦ err (bad unknown_currency)
      | some x ↦ ok x
    ],
    b,
  )

  unfoldable pub set_base_cash : Num → Method (Broker F) (Unit {0})
  unfolding put
  set_base_cash x = modify (λ b. record b { cash_balances = put b.cash_balances b.base_currency x })

  -- `self.portfolios[portfolio_id]`
  unfoldable pub the_portfolio : String → Method (Broker F) (Portfolio F)
  unfolding get
  the_portfolio id b =
      (elim (get b.portfolios id) [ none ↦ err (bad unknown_portfolio) | some p ↦ ok p ], b)

  -- A method of a portfolio of the broker's; what it wrote stays, also when it raises.
  unfoldable pub on_portfolio :
      String → Method (Portfolio F) (Unit {0}) → Method (Broker F) (Unit {0})
  unfolding get put
  on_portfolio id f b = elim (get b.portfolios id) [
    | none ↦ (err (bad unknown_portfolio), b)
    | some p ↦ let (r, p') = f p in (r, record b { portfolios = put b.portfolios id p' })
  ]

  unfoldable pub subscribe_funds_to_account : Num → Method (Broker F) (Unit {0})
  unfolding base_cash set_base_cash
  subscribe_funds_to_account amount = do
    raise_if (lt amount (zero_num F)) (bad negative_amount)
    cash ← base_cash
    set_base_cash (add cash amount)

  unfoldable pub withdraw_funds_from_account : Num → Method (Broker F) (Unit {0})
  unfolding base_cash set_base_cash
  withdraw_funds_from_account amount = do
    raise_if (lt amount (zero_num F)) (bad negative_amount)
    cash ← base_cash
    raise_if (lt cash amount) (bad not_enough_cash)
    set_base_cash (sub cash amount)

  -- The two writes of `subscribe_funds_to_portfolio`.
  unfoldable pub pay_in : String → Num → Num → Method (Broker F) (Unit {0})
  unfolding set_base_cash on_portfolio
  pay_in id amount cash = do
    (λ b. on_portfolio id (subscribe_funds b.current_dt amount) b)
    set_base_cash (sub cash amount)

  -- `subscribe_funds_to_portfolio(portfolio_id, amount)`
  unfoldable pub subscribe_funds_to_portfolio : String → Num → Method (Broker F) (Unit {0})
  unfolding base_cash the_portfolio pay_in
  subscribe_funds_to_portfolio id amount = do
    raise_if (lt amount (zero_num F)) (bad negative_amount)
    the_portfolio id
    cash ← base_cash
    raise_if (lt cash amount) (bad not_enough_cash)
    pay_in id amount cash

  -- The two writes of `withdraw_funds_from_portfolio`.
  unfoldable pub pay_out : String → Num → Method (Broker F) (Unit {0})
  unfolding base_cash set_base_cash on_portfolio
  pay_out id amount = do
    (λ b. on_portfolio id (withdraw_funds b.current_dt amount) b)
    cash ← base_cash
    set_base_cash (add cash amount)

  -- `withdraw_funds_from_portfolio(portfolio_id, amount)`
  unfoldable pub withdraw_funds_from_portfolio : String → Num → Method (Broker F) (Unit {0})
  unfolding the_portfolio pay_out
  withdraw_funds_from_portfolio id amount = do
    raise_if (lt amount (zero_num F)) (bad negative_amount)
    p ← the_portfolio id
    raise_if (lt p.cash amount) (bad not_enough_cash)
    pay_out id amount

  -- `create_portfolio(portfolio_id, name)`
  unfoldable pub create_portfolio : String → Option String → Method (Broker F) (Unit {0})
  unfolding contains put new_portfolio
  create_portfolio id name b =
      if contains b.portfolios id then (err (bad duplicate_portfolio), b) else (
        ok tt,
        record b {
          portfolios =
              put b.portfolios id
                (new_portfolio F b.current_dt (zero_num F) b.base_currency id name);
          open_orders = put b.open_orders id [];
        },
      )

  -- `get_account_cash_balance(currency)`
  unfoldable pub get_account_cash_balance : String → Method (Broker F) Num
  unfolding get
  get_account_cash_balance currency b =
      (elim (get b.cash_balances currency) [ none ↦ err (bad unknown_currency) | some x ↦ ok x ], b)

  unfoldable pub get_portfolio_cash_balance : String → Method (Broker F) Num
  unfolding the_portfolio
  get_portfolio_cash_balance id = do p ← the_portfolio id; pure p.cash

  unfoldable pub get_portfolio_total_market_value : String → Method (Broker F) Num
  unfolding the_portfolio market_value_of
  get_portfolio_total_market_value id = do p ← the_portfolio id; pure (market_value_of p)

  unfoldable pub get_portfolio_total_equity : String → Method (Broker F) Num
  unfolding the_portfolio total_equity
  get_portfolio_total_equity id = do p ← the_portfolio id; pure (total_equity p)

  unfoldable pub get_portfolio_as_dict : String → Method (Broker F) (Dict (HoldingRow F))
  unfolding the_portfolio portfolio_to_dict
  get_portfolio_as_dict id = do p ← the_portfolio id; pure (portfolio_to_dict p)

  -- The loop of `get_account_total_equity`: the answer and `master_equity` so far.
  collect_equity : List (Portfolio F) → Dict Num → Num → Method (Broker F) (Dict Num)
  unfolding put get_portfolio_total_equity
  collect_equity [] answer master = pure (put answer "master" master)
  collect_equity (p ∷ ps) answer master = do
    equity ← get_portfolio_total_equity p.portfolio_id
    collect_equity ps (put answer p.portfolio_id equity) (add master equity)

  unfoldable pub get_account_total_equity : Method (Broker F) (Dict Num)
  unfolding collect_equity values
  get_account_total_equity b = collect_equity (values b.portfolios) [] (zero_num F) b

  -- `get_account_total_market_value()`: the method that it asks for each portfolio,
  -- `get_portfolio_market_value`, is not there.
  unfoldable pub get_account_total_market_value : Method (Broker F) (Dict Num)
  unfolding values
  get_account_total_market_value b = elim (values b.portfolios) [
    | [] ↦ (ok (("master", zero_num F) ∷ []), b)
    | p ∷ ps ↦ (err (foreign "AttributeError"), b)
  ]

  -- `sorted(…, key=lambda port: port.portfolio_id)`: a portfolio goes before the first that is not
  -- before it.
  insert_portfolio : Portfolio F → List (Portfolio F) → List (Portfolio F)
  insert_portfolio p [] = p ∷ []
  insert_portfolio p (q ∷ qs) =
      if not_after p.portfolio_id q.portfolio_id then p ∷ q ∷ qs else q ∷ insert_portfolio p qs

  sort_portfolios : List (Portfolio F) → List (Portfolio F)
  sort_portfolios [] = []
  sort_portfolios (p ∷ ps) = insert_portfolio p (sort_portfolios ps)

  unfoldable pub list_all_portfolios : Broker F → List (Portfolio F)
  unfolding sort_portfolios insert_portfolio values
  list_all_portfolios b = sort_portfolios (values b.portfolios)
