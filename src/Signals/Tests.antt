-- ===== src/Signals/Tests.antt =====
-- Two assets with windows of two and three prices.
use vm_quant_trader.Prelude.{◌≡◌, refl, [], ◌∷◌, List, arith, ◌++◌}
use vm_quant_trader.Prelude.Int.{ℤ, pos}
use vm_quant_trader.Errors.{ok}
use vm_quant_trader.Floats.Whole.{whole}
use vm_quant_trader.Dict.{get}
use vm_quant_trader.Live.Decimal.{show}
use vm_quant_trader.Signals.{AssetPriceBuffers, new_buffers, asset_lookback_key}
use vm_quant_trader.Signals.Windows.{Tracks, InStep, window, append_each, append_each-InStep}

abbrev prices : List ℤ
prices = pos 5 ∷ pos 6 ∷ pos 7 ∷ []

unfoldable buffers : AssetPriceBuffers whole
unfolding new_buffers
buffers = new_buffers ("a" ∷ "b" ∷ []) (2 ∷ 3 ∷ [])

buffers-Tracks : Tracks {F = whole} "a" buffers.prices [] buffers.lookbacks
unfolding buffers get window asset_lookback_key show
buffers-Tracks = (refl, (refl, tt))

append_each-InStep_example :
    let (r, b') = append_each {F = whole} "a" prices buffers in
    (r ≡ ok tt) × InStep {F = whole} "a" ([] ++ prices) buffers b'
unfolding buffers
append_each-InStep_example =
    append_each-InStep {F = whole} "a" prices [] buffers (omega arith) ((omega arith, tt), (tt, tt))
      (refl, (refl, (refl, tt))) buffers-Tracks

latest_two : window 2 prices ≡ pos 6 ∷ pos 7 ∷ []
unfolding window
latest_two = refl
