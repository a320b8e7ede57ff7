-- ===== src/Rebalance/Sizable.antt =====
-- When the sizer gives a target, and so a rebalance ends with one.
use mathlib.Core.Path.{subst}
use vm_quant_trader.Prelude.{
  ℕ, ◌≡◌, refl, sym, String, Bool, true, false, Option, none, some, List, [], ◌∷◌, arith, All,
  is_some,
}
use vm_quant_trader.Prelude.Int.{ℤ, pos}
use vm_quant_trader.Errors.{Result, ok, err, is_ok}
use vm_quant_trader.Errors.Frame.{Runs, Runs-bind}
use vm_quant_trader.Floats.{Floats, zero_num}
use vm_quant_trader.Dict.{Dict, get, get_or, put, values}
use vm_quant_trader.FeeModel.{FeeModel}
use vm_quant_trader.Messaging.Events.{TargetWeights, as_dict}
use vm_quant_trader.Portfolio.{Portfolio, portfolio_to_dict, total_equity}
use vm_quant_trader.Simulated.Market.{Market}
use vm_quant_trader.Simulated.Broker.{Broker, get_portfolio_as_dict, get_portfolio_total_equity}
use vm_quant_trader.Simulated.Update.Returns.{IsPriced}
use vm_quant_trader.Rebalance.Weights.{Universe}
use vm_quant_trader.Rebalance.Sizer.{
  OrderSizer, dollar_weighted, long_short, sorted_items, normalise_weights, size_asset, size_assets,
  size_weights, size, quantities, estimate_trade_costs, shares_for, any_negative, investable,
}
use vm_quant_trader.Rebalance.System.{size_and_submit}
use vm_quant_trader.Rebalance.Executed.{IsIdle}
use vm_quant_trader.Rebalance.Targets.{weights_for, Rebalanced, size_and_submit_reaches}

-- An ask that is a number other than zero, for every asset.
pub record HasAsks {F : Floats} (market : Market F) (dt : ℕ) : Type 0 where
  pub number : (asset : String) → F.is_nan (market.get_asset_latest_ask_price dt asset) ≡ false
  pub nonzero :
      (asset : String) → F.eq (market.get_asset_latest_ask_price dt asset) (zero_num F) ≡ false

-- The dollar-weighted sizer refuses negative weights; the long-short sizer takes any.
abbrev pub IsAllowed : {F : Floats} → OrderSizer F → Dict F.Num → Type 0
IsAllowed {F} (dollar_weighted buffer) weights = any_negative F (values weights) ≡ false
IsAllowed (long_short leverage) weights = Unit

module _ {F : Floats} (market : Market F) (sizer : OrderSizer F) (dt : ℕ) (model : FeeModel F)
    (equity : F.Num) (current : Dict ℤ) where
  -- What is rounded to whole shares for an asset is finite: the trade that is priced, and what is
  -- bought with the rest.
  pub record IsFinite (item : String × F.Num) : Type 0 where
    pub trade :
        is_some (
          estimate_trade_costs model item.0
            (F.mul equity item.1)
            (get_or current item.0 (pos 0))
            (market.get_asset_latest_ask_price dt item.0))
        ≡ true
    pub rest :
        (costs : F.Num)
        → estimate_trade_costs model item.0
            (F.mul equity item.1)
            (get_or current item.0 (pos 0))
            (market.get_asset_latest_ask_price dt item.0)
          ≡ some costs
        → is_some (
            shares_for sizer
              (F.sub (F.mul equity item.1) costs)
              (market.get_asset_latest_ask_price dt item.0))
          ≡ true

-- The weights that the sizer takes: none that it refuses, and for every asset of the normalised
-- ones finite numbers of shares.
pub record IsSizable {F : Floats} (market : Market F) (sizer : OrderSizer F) (dt : ℕ)
    (model : FeeModel F) (p : Portfolio F) (weights : Dict F.Num) : Type 0 where
  pub allowed : IsAllowed sizer weights
  pub finite :
      (normal : Dict F.Num)
      → normalise_weights sizer weights ≡ ok normal
      → All
          (IsFinite market sizer dt model
            (investable sizer (total_equity p))
            (quantities (portfolio_to_dict p)))
          (sorted_items normal)

some_of : {A : Type 0} (o : Option A) → is_some o ≡ true → (a : A) × (o ≡ some a)
some_of (some a) h = (a, refl)
some_of none h = cc

of_returned : {A : Type 0} (r : Result A) → is_ok r ≡ true → (a : A) × (r ≡ ok a)
of_returned (ok a) h = (a, refl)
of_returned (err e) h = cc

module _ {F : Floats} where
  normalise_weights_returns :
      (sizer : OrderSizer F) (weights : Dict F.Num)
      → IsAllowed sizer weights
      → is_ok (normalise_weights sizer weights) ≡ true
  unfolding normalise_weights
  normalise_weights_returns (dollar_weighted buffer) weights h = ground (arith, h)
  normalise_weights_returns (long_short leverage) weights h = ground arith

module _ {F : Floats} (market : Market F) (sizer : OrderSizer F) (dt : ℕ) (asks : HasAsks market dt)
    (b : Broker F) where
  abbrev Same : Broker F → Type 0
  Same c = c ≡ b

  size_asset_returns :
      (equity : F.Num) (current : Dict ℤ) (asset : String) (weight : F.Num)
      → IsFinite market sizer dt b.fee_model equity current (asset, weight)
      → let (r, c) = size_asset market sizer dt equity current asset weight b in
        (is_ok r ≡ true) × Same c
  unfolding size_asset
  size_asset_returns equity current asset weight finite =
      let price = market.get_asset_latest_ask_price dt asset in
      let dollars = F.mul equity weight in
      let (costs, priced) =
        some_of
          (estimate_trade_costs b.fee_model asset dollars (get_or current asset (pos 0)) price)
          finite.trade in
      let (n, bought) =
        some_of (shares_for sizer (F.sub dollars costs) price) (finite.rest costs priced) in
      rw (asks.number asset, asks.nonzero asset, priced, bought) (refl, refl)

  size_asset-Runs :
      (equity : F.Num) (current : Dict ℤ) (asset : String) (weight : F.Num)
      → IsFinite market sizer dt b.fee_model equity current (asset, weight)
      → Runs Same (size_asset market sizer dt equity current asset weight)
  size_asset-Runs equity current asset weight finite c e =
      subst
        (λ (d : Broker F).
          let (r, d') = size_asset market sizer dt equity current asset weight d in
          (is_ok r ≡ true) × Same d')
        (sym e) (size_asset_returns equity current asset weight finite)

  size_assets-Runs :
      (equity : F.Num) (current : Dict ℤ) (items : List (String × F.Num)) (target : Dict ℤ)
      → All (IsFinite market sizer dt b.fee_model equity current) items
      → Runs Same (size_assets market sizer dt equity current items target)
  unfolding size_assets
  size_assets-Runs equity current [] target finite c e = (refl, e)
  size_assets-Runs equity current ((asset, weight) ∷ items) target finite c e =
      Runs-bind Same (size_asset market sizer dt equity current asset weight)
        (λ q. size_assets market sizer dt equity current items (put target asset q))
        (size_asset-Runs equity current asset weight finite.0)
        (λ q. size_assets-Runs equity current items (put target asset q) finite.1) c e

  -- The sizer gives a target, whatever the weights that it is for.
  pub size_returns :
      (id : String) (p : Portfolio F) (weights : Dict F.Num)
      → get b.portfolios id ≡ some p
      → IsSizable market sizer dt b.fee_model p weights
      → is_ok (size market sizer dt id weights b).0 ≡ true
  unfolding size size_weights get_portfolio_total_equity get_portfolio_as_dict
  size_returns id p [] found h = rw found refl
  size_returns id p (w ∷ weights) found h =
      let (normal, e) =
        of_returned (normalise_weights sizer (w ∷ weights))
          (normalise_weights_returns sizer (w ∷ weights) h.allowed) in
      let equity = investable sizer (total_equity p) in
      let current = quantities (portfolio_to_dict p) in
      rw (found, e, found)
        (size_assets-Runs equity current (sorted_items normal) [] (h.finite normal e) b refl).0

-- At a simulated broker of sound shape whose clock shows the command's time, with nothing on order
-- and no portfolio or position later than that time, whose exchange is open then and has a price
-- above zero and an ask other than zero for every asset; with weights that, completed by zero for
-- everything held, the sizer does not refuse, and from which only finite numbers of shares come: a
-- rebalance with order submission returns, the sizer gives a target, and the portfolio then holds of every asset exactly
-- what that target says, so nothing of an asset that it does not name; no other portfolio's
-- holdings move, and again nothing is on order.
pub size_and_submit_rebalances :
    {F : Floats} (market : Market F) (sizer : OrderSizer F) (universe : Universe)
    (ids : String → String) (id : String) (command : TargetWeights F) (b : Broker F)
    (p : Portfolio F) (has : String → Bool)
    → IsPriced market command.dt
    → HasAsks market command.dt
    → market.is_open_at_datetime command.dt ≡ true
    → IsIdle command.dt has b
    → get b.portfolios id ≡ some p
    → IsSizable market sizer command.dt b.fee_model p
        (weights_for universe id command.dt (as_dict command) p)
    → let (r, b') = size_and_submit market sizer universe ids id true command b in
      (target : Dict ℤ) × ((size market sizer command.dt id
          (weights_for universe id command.dt (as_dict command) p)
          b).0
        ≡ ok target)
      × (is_ok r ≡ true)
      × Rebalanced id command.dt target b b'
size_and_submit_rebalances market sizer universe ids id command b p has priced asks opened idle
      found fits =
    let full = weights_for universe id command.dt (as_dict command) p in
    let (target, sized) =
      of_returned (size market sizer command.dt id full b).0
        (size_returns market sizer command.dt asks b id p full found fits) in
    let (returns, after) =
      size_and_submit_reaches market sizer universe ids id command b p target has priced opened idle
        found sized in
    (target, sized, returns, after)
