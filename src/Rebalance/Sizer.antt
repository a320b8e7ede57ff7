-- ===== src/Rebalance/Sizer.antt =====
-- From weights to whole numbers of shares: the two order sizers (vmtrader/portcon/order_sizer/). A
-- price of zero is a division by zero.
use vm_quant_trader.Prelude.{
  ℕ, String, Bool, false, Option, none, some, List, [], ◌∷◌, ◌||◌, if◌then◌else◌,
}
use vm_quant_trader.Prelude.Int.{ℤ, pos, negsuc, ◌*ℤ◌}
use vm_quant_trader.Errors.{
  Method, Result, ok, err, bad, zero_division, no_price, buffer_out_of_range, leverage_not_positive,
  negative_weight, not_a_number, pure, raise, raise_if, gets, ◌>>=◌, ◌>>◌,
}
use vm_quant_trader.Floats.{Floats, zero_num, amount}
use vm_quant_trader.Dict.{Dict, get_or, put, values}
use vm_quant_trader.FeeModel.{FeeModel, calc_total_cost}
use vm_quant_trader.Portfolio.{HoldingRow}
use vm_quant_trader.Simulated.Market.{Market}
use vm_quant_trader.Simulated.Broker.{
  Broker, not_after, get_portfolio_total_equity, get_portfolio_as_dict,
}

pub data OrderSizer (F : Floats) : Type 0 where
  dollar_weighted : (cash_buffer_percentage : F.Num) → OrderSizer F
  long_short : (gross_leverage : F.Num) → OrderSizer F

-- `sorted(d.items())`: by the key, which no two items share
unfoldable pub insert_item {ℓ} : {V : Type ℓ} → String × V → List (String × V) → List (String × V)
insert_item t [] = t ∷ []
insert_item t (u ∷ us) = if not_after t.0 u.0 then t ∷ u ∷ us else u ∷ insert_item t us

unfoldable pub sorted_items {ℓ} : {V : Type ℓ} → Dict V → List (String × V)
unfolding insert_item
sorted_items [] = []
sorted_items (t ∷ d) = insert_item t (sorted_items d)

-- `sum(…)`, from 0
abbrev pub sum_from : (F : Floats) → F.Num → List F.Num → F.Num
sum_from F acc [] = acc
sum_from F acc (x ∷ xs) = sum_from F (F.add acc x) xs

abbrev pub absolute_sum_from : (F : Floats) → F.Num → List F.Num → F.Num
absolute_sum_from F acc [] = acc
absolute_sum_from F acc (x ∷ xs) = absolute_sum_from F (F.add acc (F.abs_num x)) xs

-- `any([weight < 0.0 for weight in …])`
abbrev pub any_negative : (F : Floats) → List F.Num → Bool
any_negative F [] = false
any_negative F (x ∷ xs) = F.lt x (zero_num F) || any_negative F xs

-- `{asset: f(weight) for asset, weight in weights.items()}`
unfoldable pub rescaled {ℓ} : {V : Type ℓ} → (V → V) → Dict V → Dict V
rescaled f [] = []
rescaled f ((asset, weight) ∷ d) = (asset, f weight) ∷ rescaled f d

module _ {F : Floats} where
  open F use {Num, of_int, add, sub, mul, div, lt, le, eq, floor, ceil, abs_num}

  -- `_check_set_cash_buffer`, `_check_set_gross_leverage`
  unfoldable pub checked_sizer : OrderSizer F → Result (OrderSizer F)
  checked_sizer (dollar_weighted buffer) =
      if lt buffer (zero_num F) || lt (amount F 1) buffer
      then err (bad buffer_out_of_range)
      else ok (dollar_weighted buffer)
  checked_sizer (long_short leverage) =
      if le leverage (zero_num F) then err (bad leverage_not_positive) else ok (long_short leverage)

  -- `_normalise_weights(weights)`
  unfoldable pub normalise_weights : OrderSizer F → Dict Num → Result (Dict Num)
  unfolding rescaled values
  normalise_weights (dollar_weighted buffer) weights =
      let total = sum_from F (zero_num F) (values weights) in
      if any_negative F (values weights)
      then err (bad negative_weight)
      else if F.is_close_to_zero total
      then ok weights
      else ok (rescaled (λ w. div w total) weights)
  normalise_weights (long_short leverage) weights =
      let exposure = absolute_sum_from F (zero_num F) (values weights) in
      if F.is_close_to_zero exposure
      then ok weights
      else ok (rescaled (λ w. mul w (div leverage exposure)) weights)

  -- `_estimate_trade_costs(asset, target_dollars, current_quantity, asset_price)`
  unfoldable pub estimate_trade_costs : FeeModel F → String → Num → ℤ → Num → Option Num
  unfolding calc_total_cost
  estimate_trade_costs model asset target_dollars current_quantity price =
      let dollars = sub target_dollars (mul (of_int current_quantity) price) in
      let direction = if le (zero_num F) dollars then pos 1 else negsuc 0 in
      elim (floor (div (abs_num dollars) price)) [
        | none ↦ none
        | some n ↦ some (calc_total_cost model asset (direction *ℤ n) dollars)
      ]

  -- The equity that weights are fractions of.
  unfoldable pub investable : OrderSizer F → Num → Num
  investable (dollar_weighted buffer) total_equity = mul total_equity (sub (amount F 1) buffer)
  investable (long_short leverage) total_equity = total_equity

  -- The whole number of shares that an amount buys.
  unfoldable pub shares_for : OrderSizer F → Num → Num → Option ℤ
  shares_for (dollar_weighted buffer) dollars price = floor (div dollars price)
  shares_for (long_short leverage) dollars price =
      elim (if le (zero_num F) dollars then floor dollars else ceil dollars) [
        | none ↦ none
        | some whole ↦ F.truncate (div (of_int whole) price)
      ]

  -- `current_portfolio.get(asset, {}).get('quantity', 0)` needs no more of a holding
  unfoldable pub quantities : Dict (HoldingRow F) → Dict ℤ
  quantities [] = []
  quantities ((asset, row) ∷ d) = (asset, row.quantity) ∷ quantities d

-- What `int` of NaN or of infinity raises.
abbrev pub int_or_raise {ℓ} : {A S : Type ℓ} → Option A → Method S A
int_or_raise none = raise (bad not_a_number)
int_or_raise (some a) = pure a

module _ {F : Floats} (market : Market F) (sizer : OrderSizer F) (dt : ℕ) where
  -- The body of the loop over the weights.
  unfoldable pub size_asset : F.Num → Dict ℤ → String → F.Num → Method (Broker F) ℤ
  unfolding estimate_trade_costs shares_for get_or
  size_asset equity current asset weight = do
    raise_if (F.is_nan (market.get_asset_latest_ask_price dt asset)) (bad no_price)
    raise_if (F.eq (market.get_asset_latest_ask_price dt asset) (zero_num F)) zero_division
    model ← gets (λ b. b.fee_model)
    costs ← int_or_raise (
        estimate_trade_costs model asset (F.mul equity weight) (get_or current asset (pos 0))
          (market.get_asset_latest_ask_price dt asset))
    int_or_raise (
        shares_for sizer (F.sub (F.mul equity weight) costs)
          (market.get_asset_latest_ask_price dt asset))

  -- The loop, with `target_portfolio` as accumulator.
  unfoldable pub size_assets :
      F.Num → Dict ℤ → List (String × F.Num) → Dict ℤ → Method (Broker F) (Dict ℤ)
  unfolding size_asset put
  size_assets equity current [] target = pure target
  size_assets equity current ((asset, weight) ∷ rest) target = do
    quantity ← size_asset equity current asset weight
    size_assets equity current rest (put target asset quantity)

  abbrev pub of_result {ℓ} : {A : Type ℓ} → Result A → Method (Broker F) A
  of_result r b = (r, b)

  -- The loop over the sorted weights, for a portfolio.
  unfoldable pub size_weights : String → F.Num → Dict F.Num → Method (Broker F) (Dict ℤ)
  unfolding get_portfolio_as_dict investable normalise_weights size_assets quantities sorted_items
  size_weights id total_equity weights = do
    normalised ← of_result (normalise_weights sizer weights)
    current ← get_portfolio_as_dict id
    size_assets (investable sizer total_equity) (quantities current) (sorted_items normalised) []

  -- `order_sizer(dt, weights)`
  unfoldable pub size : String → Dict F.Num → Method (Broker F) (Dict ℤ)
  unfolding get_portfolio_total_equity size_weights
  size id [] = do get_portfolio_total_equity id; pure []
  size id (w ∷ weights) = do
    total_equity ← get_portfolio_total_equity id
    size_weights id total_equity (w ∷ weights)
