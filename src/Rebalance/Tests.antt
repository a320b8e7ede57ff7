-- ===== src/Rebalance/Tests.antt =====
-- A rebalance on a small account, in whole won.
use vm_quant_trader.Prelude.{
  ◌≡◌, refl, String, true, none, some, List, [], ◌∷◌, arith, if◌then◌else◌, All,
}
use vm_quant_trader.Prelude.Int.{ℤ, pos, negsuc, ◌+ℤ◌, ◌-ℤ◌, ◌*ℤ◌}
use vm_quant_trader.Errors.{ok, is_ok}
use vm_quant_trader.Floats.Whole.{whole}
use vm_quant_trader.Dict.{Dict, get, get_or, contains, keys, values}
use vm_quant_trader.Dict.Laws.{HasUniqueKeys}
use vm_quant_trader.Messaging.Events.{TargetWeights, as_dict}
use vm_quant_trader.FeeModel.{FeeModel}
use vm_quant_trader.Portfolio.{portfolio_to_dict, total_equity}
use vm_quant_trader.Simulated.Broker.{Broker}
use vm_quant_trader.Simulated.Update.Shares.{ordered}
use vm_quant_trader.Simulated.Fixture.{
  pit, house, fund_one, order, house-IsSound, pit-IsPriced, portfolios-IsTimely,
}
use vm_quant_trader.Rebalance.Weights.{
  Universe, static_universe, dynamic_universe, get_assets, from_assets,
}
use vm_quant_trader.Rebalance.Sizer.{
  OrderSizer, dollar_weighted, size, estimate_trade_costs, shares_for, sorted_items, quantities,
  investable,
}
use vm_quant_trader.Rebalance.Orders.{generate_rebalance_orders, sorted_set, updated}
use vm_quant_trader.Rebalance.System.{submit_all, size_and_submit}
use vm_quant_trader.Rebalance.Reach.{IsTrade, generate_rebalance_orders_reach}
use vm_quant_trader.Rebalance.Executed.{IsIdle, Filled, submit_all_fills}
use vm_quant_trader.Rebalance.Targets.{weights_for, Rebalanced}
use vm_quant_trader.Rebalance.Sizable.{HasAsks, IsFinite, IsSizable, size_and_submit_rebalances}

entered_assets :
    get_assets (dynamic_universe (("a", some 3) ∷ ("b", none) ∷ ("c", some 9) ∷ [])) 5 ≡ "a" ∷ []
unfolding get_assets
entered_assets = refl

sorted_assets : sorted_set ("c" ∷ "a" ∷ "c" ∷ "b" ∷ []) [] ≡ "a" ∷ "b" ∷ "c" ∷ []
unfolding sorted_set
sorted_assets = refl

abbrev ids : String → String
ids asset = asset

abbrev target : Dict ℤ
target = ("005930", pos 71) ∷ []

target-HasUniqueKeys : HasUniqueKeys target
unfolding contains get
target-HasUniqueKeys = (refl, tt)

abbrev current : Dict ℤ
current = ("005930", pos 3) ∷ ("000660", pos 2) ∷ []

generate_rebalance_orders_reach_example :
    let orders = generate_rebalance_orders {F = whole} ids 6 target current in
    ((j : String)
      → get_or current j (pos 0) +ℤ ordered orders j
        ≡ (if contains target j then get_or target j (pos 0) else get_or current j (pos 0)))
    × All (IsTrade {F = whole}) orders
generate_rebalance_orders_reach_example =
    generate_rebalance_orders_reach whole ids 6 target current target-HasUniqueKeys

abbrev house_at_six : Broker whole
house_at_six = record house { current_dt = 6 }

house_at_six-IsIdle : IsIdle 6 (contains house.portfolios) house_at_six
unfolding get_or get
house_at_six-IsIdle = record {
  ready = record {
    sound = record {
      account = house-IsSound.account;
      paired = house-IsSound.paired;
      filed = house-IsSound.filed;
      named = house-IsSound.named;
    };
    clock = refl;
    timely = portfolios-IsTimely 6 (omega arith);
    domain = λ id. refl;
  };
  empty = λ id. ground arith;
}

house_has : contains house.portfolios "p" ≡ true
unfolding contains get
house_has = refl

submit_all_fills_example :
    let orders = order (pos 20) (pos 1) ∷ order (negsuc 4) (negsuc 0) ∷ [] in
    let (r, b') = submit_all pit "p" 6 orders house_at_six in
    (is_ok r ≡ true) × IsIdle 6 (contains house.portfolios) b' × Filled "p" orders house_at_six b'
submit_all_fills_example =
    submit_all_fills pit 6 (pit-IsPriced 6) refl (contains house.portfolios) "p" house_has
      (order (pos 20) (pos 1) ∷ order (negsuc 4) (negsuc 0) ∷ []) house_at_six house_at_six-IsIdle

abbrev one_share : Universe
one_share = static_universe ("005930" ∷ [])

abbrev command : TargetWeights whole
command = record { dt = 6; weights = ("005930", pos 1) ∷ [] }

abbrev all_in : OrderSizer whole
all_in = dollar_weighted (pos 0)

-- What the sizer gives for it, and that the weights are such as it takes.
sizes :
    (size pit all_in 6 "p" (weights_for one_share "p" 6 (as_dict command) fund_one) house_at_six).0
    ≡ ok target
unfolding size updated as_dict from_assets sorted_set keys get_assets ◌+ℤ◌ ◌-ℤ◌ ◌*ℤ◌
sizes = refl

pit-HasAsks : HasAsks pit 6
pit-HasAsks = record { number = λ asset. refl; nonzero = λ asset. refl }

whole-IsFinite :
    (model : FeeModel whole) (equity : ℤ) (rows : Dict ℤ) (items : List (String × ℤ))
    → All (IsFinite pit all_in 6 model equity rows) items
unfolding estimate_trade_costs shares_for
whole-IsFinite model equity rows [] = tt
whole-IsFinite model equity rows (item ∷ items) =
    (record { trade = refl; rest = λ costs e. refl }, whole-IsFinite model equity rows items)

fits :
    IsSizable pit all_in 6 house_at_six.fee_model fund_one
      (weights_for one_share "p" 6 (as_dict command) fund_one)
unfolding updated as_dict from_assets sorted_set keys get_assets values portfolio_to_dict
fits = record {
  allowed = refl;
  finite = λ normal e.
      whole-IsFinite house_at_six.fee_model (investable all_in (total_equity fund_one))
        (quantities (portfolio_to_dict fund_one)) (sorted_items normal);
}

house_fund : get house_at_six.portfolios "p" ≡ some fund_one
unfolding get
house_fund = refl

size_and_submit_rebalances_example :
    let (r, b') = size_and_submit pit all_in one_share ids "p" true command house_at_six in
    (target : Dict ℤ) × ((size pit all_in 6 "p"
        (weights_for one_share "p" 6 (as_dict command) fund_one)
        house_at_six).0
      ≡ ok target)
    × (is_ok r ≡ true)
    × Rebalanced "p" 6 target house_at_six b'
size_and_submit_rebalances_example =
    size_and_submit_rebalances pit all_in one_share ids "p" command house_at_six fund_one
      (contains house.portfolios) (pit-IsPriced 6) pit-HasAsks refl house_at_six-IsIdle house_fund
      fits
