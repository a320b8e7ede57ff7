-- ===== src/Signals.antt =====
-- The rolling price buffers behind the signals (vmtrader/signals/buffer.py). A `deque(maxlen=n)` is a
-- list with its bound, the oldest price first.
pub mod Windows
mod Tests
use Prim.Native.String.{◌++◌ as append_text}
use vm_quant_trader.Prelude.{
  ℕ, String, Bool, true, false, not, Option, none, some, List, [], ◌∷◌, ◌++◌, ltb, length,
  if◌then◌else◌,
}
use vm_quant_trader.Errors.{
  Method, Result, ok, err, bad, foreign, price_not_positive, duplicate_asset, pure, raise_if,
  modify, ◌>>=◌, ◌>>◌,
}
use vm_quant_trader.Floats.{Floats, zero_num}
use vm_quant_trader.Dict.{Dict, get, contains, put}
use vm_quant_trader.FeeModel.{listed}
use vm_quant_trader.Live.Decimal.{show}

pub record Deque (F : Floats) : Type 0 where
  pub maxlen : ℕ
  pub items : List F.Num

-- A list that is one too long loses its oldest item.
abbrev pub bounded {ℓ} : {A : Type ℓ} → ℕ → List A → List A
bounded n [] = []
bounded n (x ∷ xs) = if ltb n (length (x ∷ xs)) then xs else x ∷ xs

pub record AssetPriceBuffers (F : Floats) : Type 0 where
  pub assets : List String
  pub lookbacks : List ℕ
  pub prices : Dict (Deque F)

-- `_asset_lookback_key(asset, lookback)`
unfoldable pub asset_lookback_key : String → ℕ → String
asset_lookback_key asset lookback = append_text asset (append_text "_" (show lookback))

module _ {F : Floats} where
  -- `deque.append(price)`
  unfoldable pub push : F.Num → Deque F → Deque F
  push price d = record d { items = bounded d.maxlen (d.items ++ price ∷ []) }

  -- `prices.update(self._create_single_asset_prices_buffer_dict(asset))`
  unfoldable pub create_single_asset : String → List ℕ → Dict (Deque F) → Dict (Deque F)
  unfolding put asset_lookback_key
  create_single_asset asset [] d = d
  create_single_asset asset (lookback ∷ lookbacks) d =
      create_single_asset asset lookbacks
        (put d (asset_lookback_key asset lookback) (record { maxlen = lookback; items = [] }))

  -- `_create_all_assets_prices_buffer_dict()`
  unfoldable pub create_all_assets : List String → List ℕ → Dict (Deque F) → Dict (Deque F)
  unfolding create_single_asset
  create_all_assets [] lookbacks d = d
  create_all_assets (asset ∷ assets) lookbacks d =
      create_all_assets assets lookbacks (create_single_asset asset lookbacks d)

  -- `AssetPriceBuffers(assets, lookbacks)`
  unfoldable pub new_buffers : List String → List ℕ → AssetPriceBuffers F
  unfolding create_all_assets
  new_buffers assets lookbacks = record {
    assets = assets;
    lookbacks = lookbacks;
    prices = create_all_assets assets lookbacks [];
  }

  -- `add_asset(asset)`. The list of assets is left as it is.
  unfoldable pub add_asset : String → Method (AssetPriceBuffers F) (Unit {0})
  unfolding listed create_single_asset
  add_asset asset b =
      if listed asset b.assets
      then (err (bad duplicate_asset), b)
      else (ok tt, record b { prices = create_single_asset asset b.lookbacks b.prices })

  -- The loop of `append`.
  unfoldable pub push_all : String → F.Num → List ℕ → Method (Dict (Deque F)) (Unit {0})
  unfolding get put push asset_lookback_key
  push_all asset price [] d = (ok tt, d)
  push_all asset price (lookback ∷ lookbacks) d =
      let k = asset_lookback_key asset lookback in
      elim (get d k) [
        | none ↦ (err (foreign "KeyError"), d)
        | some q ↦ push_all asset price lookbacks (put d k (push price q))
      ]

  -- The buffers of an asset that has none yet, by its first lookback.
  unfoldable pub with_buffers : String → List ℕ → Dict (Deque F) → Result (Dict (Deque F))
  unfolding contains create_single_asset asset_lookback_key
  with_buffers asset [] d = err (foreign "IndexError")
  with_buffers asset (first ∷ others) d = ok (
      if contains d (asset_lookback_key asset first)
      then d
      else create_single_asset asset (first ∷ others) d)

  unfoldable pub push_on :
      String
      → F.Num
      → AssetPriceBuffers F
      → Result (Dict (Deque F))
      → Result (Unit {0}) × AssetPriceBuffers F
  unfolding push_all
  push_on asset price b (err e) = (err e, b)
  push_on asset price b (ok prices) =
      let (r, d) = push_all asset price b.lookbacks prices in (r, record b { prices = d })

  -- `append(asset, price)`
  unfoldable pub append : String → F.Num → Method (AssetPriceBuffers F) (Unit {0})
  unfolding push_on with_buffers
  append asset price b =
      if F.le price (zero_num F)
      then (err (bad price_not_positive), b)
      else push_on asset price b (with_buffers asset b.lookbacks b.prices)
