-- ===== src/FeeModel/Charges.antt =====
-- What a fee model charges lies between nothing and what its rates allow.
use vm_quant_trader.Prelude.{if◌then◌else◌}
use vm_quant_trader.Prelude.Int.{ℤ, pos, abs, ◌≤ℤ◌, ltb_ℤ}
use vm_quant_trader.Floats.Fixed.{fixed, scale}
use vm_quant_trader.FeeModel.{FeeModel, zero_fee, fixed_fee, percent_fee, korea_fee}

-- A rate from 0% to 100%.
abbrev pub IsRate : ℤ → Type 0
IsRate rate = (pos 0 ≤ℤ rate) × (rate ≤ℤ pos scale)

-- The rates of the model are such, and its flat fees are not negative.
abbrev pub HasRates : FeeModel fixed → Type 0
HasRates zero_fee = Unit
HasRates (fixed_fee commission tax) = (pos 0 ≤ℤ commission) × (pos 0 ≤ℤ tax)
HasRates (percent_fee commission_pct tax_pct) = IsRate commission_pct × IsRate tax_pct
HasRates (korea_fee commission_pct tax_pct exempt) = IsRate commission_pct × IsRate tax_pct

-- The most that a trade of this value is charged, beside the value itself.
abbrev pub most_commission : FeeModel fixed → ℤ → ℤ
most_commission zero_fee c = pos 0
most_commission (fixed_fee commission tax) c = commission
most_commission (percent_fee commission_pct tax_pct) c = pos (abs c)
most_commission (korea_fee commission_pct tax_pct exempt) c = pos (abs c)

-- A purchase is taxed only by the models that do not look at the side.
abbrev pub most_tax : FeeModel fixed → ℤ → ℤ → ℤ
most_tax zero_fee quantity c = pos 0
most_tax (fixed_fee commission tax) quantity c = tax
most_tax (percent_fee commission_pct tax_pct) quantity c = pos (abs c)
most_tax (korea_fee commission_pct tax_pct exempt) quantity c =
    if ltb_ℤ quantity (pos 0) then pos (abs c) else pos 0

abbrev Between : ℤ → ℤ → Type 0
Between most x = (pos 0 ≤ℤ x) × (x ≤ℤ most)
