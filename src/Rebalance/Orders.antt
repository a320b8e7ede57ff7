-- ===== src/Rebalance/Orders.antt =====
-- The account's half of portfolio construction (vmtrader/portcon/pcm.py): which orders take the
-- portfolio to its target. The statistics that it appends to are not modelled. The source draws a
-- UUID for each order; here the ids are a parameter, by asset.
use vm_quant_trader.Prelude.{ℕ, String, List, [], ◌∷◌, ◌=ₛ◌, if◌then◌else◌}
use vm_quant_trader.Prelude.Int.{ℤ, pos, ◌-ℤ◌, eqb_ℤ}
use vm_quant_trader.Errors.{Method, pure, ◌>>=◌}
use vm_quant_trader.Floats.{Floats, zero_num}
use vm_quant_trader.Dict.{Dict, get_or, contains, put, keys}
use vm_quant_trader.Order.{Order, new_order}
use vm_quant_trader.Simulated.Market.{Market}
use vm_quant_trader.Simulated.Broker.{Broker, not_after, get_portfolio_as_dict}
use vm_quant_trader.Rebalance.Weights.{Universe, get_assets, from_assets}
use vm_quant_trader.Rebalance.Sizer.{OrderSizer, size, sorted_items, quantities}

-- `sorted(list(set(…)))`, one asset added
unfoldable pub insert_asset : String → List String → List String
insert_asset a [] = a ∷ []
insert_asset a (x ∷ xs) =
    if a =ₛ x then x ∷ xs else if not_after a x then a ∷ x ∷ xs else x ∷ insert_asset a xs

unfoldable pub sorted_set : List String → List String → List String
unfolding insert_asset
sorted_set [] rest = rest
sorted_set (a ∷ more) rest = insert_asset a (sorted_set more rest)

-- `{**zero_weights, **optimised_weights}`
unfoldable pub updated {ℓ} : {V : Type ℓ} → Dict V → List (String × V) → Dict V
unfolding put
updated d [] = d
updated d ((k, v) ∷ l) = updated (put d k v) l

-- The first loop of `_generate_rebalance_orders`: what the target names and the portfolio lacks is
-- held at zero.
unfoldable pub with_missing : Dict ℤ → Dict ℤ → Dict ℤ
unfolding contains put
with_missing [] current = current
with_missing ((asset, q) ∷ target) current =
    with_missing target (if contains current asset then current else put current asset (pos 0))

-- `rebalance_portfolio`: the difference for each asset of the target. The second loop of the source
-- adds nothing, since every asset is a text.
unfoldable pub differences : Dict ℤ → Dict ℤ → Dict ℤ
unfolding get_or
differences [] current = []
differences ((asset, q) ∷ target) current =
    (asset, q -ℤ get_or current asset (pos 0)) ∷ differences target current

module _ {F : Floats} (ids : String → String) (dt : ℕ) where
  -- The orders of the items that are not zero.
  unfoldable pub orders_of : List (String × ℤ) → List (Order F)
  unfolding new_order
  orders_of [] = []
  orders_of ((asset, q) ∷ items) =
      let rest = orders_of items in
      if eqb_ℤ q (pos 0) then rest else new_order F dt asset q (ids asset) ∷ rest

  -- `_generate_rebalance_orders(dt, target_portfolio, current_portfolio)`
  unfoldable pub generate_rebalance_orders : Dict ℤ → Dict ℤ → List (Order F)
  unfolding orders_of sorted_items differences with_missing
  generate_rebalance_orders target current =
      orders_of (sorted_items (differences target (with_missing target current)))

module _ {F : Floats} (universe : Universe) (id : String) where
  -- `_obtain_full_asset_list(dt)`
  unfoldable pub obtain_full_asset_list : ℕ → Method (Broker F) (List String)
  unfolding get_portfolio_as_dict keys sorted_set get_assets
  obtain_full_asset_list dt = do
    held ← get_portfolio_as_dict id
    pure (sorted_set (keys held) (sorted_set (get_assets universe dt) []))

  -- `full_weights` of `build_orders`
  unfoldable pub full_weights : ℕ → Dict F.Num → Method (Broker F) (Dict F.Num)
  unfolding obtain_full_asset_list from_assets updated
  full_weights dt weights = do
    assets ← obtain_full_asset_list dt
    pure (updated (from_assets assets (zero_num F) []) weights)

module _ {F : Floats} (market : Market F) (sizer : OrderSizer F) (universe : Universe)
    (ids : String → String) (id : String) where
  -- `build_orders(dt, optimised_weights)`
  unfoldable pub build_orders : ℕ → Dict F.Num → Method (Broker F) (List (Order F))
  unfolding full_weights size get_portfolio_as_dict quantities generate_rebalance_orders
  build_orders dt weights = do
    full ← full_weights universe id dt weights
    target ← size market sizer dt id full
    current ← get_portfolio_as_dict id
    pure (generate_rebalance_orders ids dt target (quantities current))
