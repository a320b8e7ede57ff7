-- ===== src/FeeModel/Tests.antt =====
-- What the fee models charge, in numbers of four decimals.
use vm_quant_trader.Prelude.{◌≡◌, refl, [], ◌∷◌}
use vm_quant_trader.Prelude.Int.{pos, negsuc, ◌+ℤ◌, ◌*ℤ◌}
use vm_quant_trader.Floats.Fixed.{fixed, cut}
use vm_quant_trader.FeeModel.{FeeModel, fixed_fee, korea_fee, calc_total_cost}

-- A commission of 0.15% and a tax of 0.2%.
abbrev korea : FeeModel fixed
korea = korea_fee (pos 15) (pos 20) ("069500" ∷ [])

-- Of 70,000.
sale_of_share : calc_total_cost korea "005930" (negsuc 9) (negsuc 699999999) ≡ pos 2450000
unfolding calc_total_cost ◌+ℤ◌ ◌*ℤ◌ cut
sale_of_share = refl

sale_of_exempt : calc_total_cost korea "069500" (negsuc 9) (negsuc 699999999) ≡ pos 1050000
unfolding calc_total_cost ◌+ℤ◌ ◌*ℤ◌ cut
sale_of_exempt = refl

purchase_untaxed : calc_total_cost korea "005930" (pos 10) (pos 700000000) ≡ pos 1050000
unfolding calc_total_cost ◌+ℤ◌ ◌*ℤ◌ cut
purchase_untaxed = refl

abbrev flat : FeeModel fixed
flat = fixed_fee (pos 30000) (pos 40000)

flat_purchase : calc_total_cost flat "005930" (pos 10) (pos 700000000) ≡ pos 70000
unfolding calc_total_cost ◌+ℤ◌ ◌*ℤ◌
flat_purchase = refl
