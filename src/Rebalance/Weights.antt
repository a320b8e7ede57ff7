-- ===== src/Rebalance/Weights.antt =====
-- Which assets, and with what weights: the universes (vmtrader/asset/universe/), the alpha models
-- (vmtrader/alpha_model/) and the optimisers (vmtrader/portcon/optimiser/). A strategy of a user's
-- is a parameter, a function from the time to weights; so is a risk model.
use vm_quant_trader.Prelude.{
  ℕ, String, Bool, false, Option, none, some, List, [], ◌∷◌, leb, if◌then◌else◌,
}
use vm_quant_trader.Prelude.{length}
use vm_quant_trader.Errors.{Result, ok, err, zero_division}
use vm_quant_trader.Floats.{Floats, zero_num, amount}
use vm_quant_trader.Dict.{Dict, put, keys}

pub data Universe : Type 0 where
  static_universe : (asset_list : List String) → Universe
  -- the entry date of each asset, where it has one
  dynamic_universe : (asset_dates : Dict (Option ℕ)) → Universe

-- `asset_date is not None and dt >= asset_date`
abbrev has_entered : ℕ → Option ℕ → Bool
has_entered dt none = false
has_entered dt (some date) = leb date dt

entered : ℕ → Dict (Option ℕ) → List String
entered dt [] = []
entered dt ((asset, date) ∷ d) =
    let rest = entered dt d in if has_entered dt date then asset ∷ rest else rest

-- `get_assets(dt)`
unfoldable pub get_assets : Universe → ℕ → List String
unfolding entered
get_assets (static_universe asset_list) dt = asset_list
get_assets (dynamic_universe asset_dates) dt = entered dt asset_dates

-- `{asset: x for asset in assets}`, added to a dictionary
unfoldable pub from_assets {ℓ} : {V : Type ℓ} → List String → V → Dict V → Dict V
unfolding put
from_assets [] x d = d
from_assets (asset ∷ rest) x d = from_assets rest x (put d asset x)

pub data AlphaModel (F : Floats) : Type 0 where
  fixed_signals : (signal_weights : Dict F.Num) → AlphaModel F
  single_signal : Universe → (signal : F.Num) → AlphaModel F
  strategy : (ℕ → Dict F.Num) → AlphaModel F

pub data Optimiser (F : Floats) : Type 0 where
  fixed_weight : Optimiser F
  equal_weight : (scale : F.Num) → Optimiser F

-- `scale * (1.0 / float(num_assets))` for each asset
abbrev equal_weights : (F : Floats) → F.Num → List String → Result (Dict F.Num)
unfolding from_assets
equal_weights F scale [] = err zero_division
equal_weights F scale (asset ∷ assets) =
    let equal_weight = F.div (amount F 1) (amount F (length (asset ∷ assets))) in
    ok (from_assets (asset ∷ assets) (F.mul scale equal_weight) [])

module _ {F : Floats} where
  -- `alpha_model(dt)`
  unfoldable pub signals : AlphaModel F → ℕ → Dict F.Num
  unfolding from_assets get_assets
  signals (fixed_signals signal_weights) dt = signal_weights
  signals (single_signal universe signal) dt = from_assets (get_assets universe dt) signal []
  signals (strategy f) dt = f dt

  -- `optimiser(dt, initial_weights)`
  unfoldable pub optimise : Optimiser F → Dict F.Num → Result (Dict F.Num)
  unfolding equal_weights keys
  optimise fixed_weight weights = ok weights
  optimise (equal_weight scale) weights = equal_weights F scale (keys weights)

  -- `decide_weights(dt)` of the construction model: the alpha model or zero weights, the risk model
  -- if there is one, and the optimiser
  unfoldable pub decide_weights :
      Universe
      → Option (AlphaModel F)
      → Option (ℕ → Dict F.Num → Dict F.Num)
      → Optimiser F
      → ℕ
      → Result (Dict F.Num)
  unfolding from_assets get_assets signals optimise
  decide_weights universe alpha risk optimiser dt =
      let proposed : Dict F.Num = elim alpha [
        | none ↦ from_assets (get_assets universe dt) (zero_num F) []
        | some model ↦ signals model dt
      ] in
      let weights : Dict F.Num = elim risk [ none ↦ proposed | some model ↦ model dt proposed ] in
      optimise optimiser weights
