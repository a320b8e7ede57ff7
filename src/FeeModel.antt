-- ===== src/FeeModel.antt =====
-- What a broker charges for a trade: the four fee models of vmtrader/broker/fee_model/
-- (zero_fee_model.py, fixed_fee_model.py, percent_fee_model.py, korea_fee_model.py). An object is
-- its class with the fields that the class keeps; a method matches on the class.
pub mod Charges
mod Tests
use vm_quant_trader.Prelude.{
  String, Bool, true, false, List, [], ◌∷◌, ◌=ₛ◌, not, ◌||◌, if◌then◌else◌,
}
use vm_quant_trader.Prelude.Int.{ℤ, pos, ltb_ℤ}
use vm_quant_trader.Floats.{Floats, zero_num}

pub data FeeModel (F : Floats) : Type 0 where
  zero_fee : FeeModel F
  fixed_fee : (commission tax : F.Num) → FeeModel F
  percent_fee : (commission_pct tax_pct : F.Num) → FeeModel F
  korea_fee : (commission_pct tax_pct : F.Num) (tax_exempt_assets : List String) → FeeModel F

-- `asset in self.tax_exempt_assets`
unfoldable pub listed : String → List String → Bool
listed asset [] = false
listed asset (x ∷ xs) = (x =ₛ asset) || listed asset xs

module _ {F : Floats} where
  open F use {Num, add, mul, eq, abs_num}

  -- `_calc_commission(asset, quantity, consideration)`
  unfoldable pub calc_commission : FeeModel F → String → ℤ → Num → Num
  calc_commission zero_fee asset quantity consideration = zero_num F
  calc_commission (fixed_fee commission tax) asset quantity consideration =
      if eq consideration (zero_num F) then zero_num F else commission
  calc_commission (percent_fee commission_pct tax_pct) asset quantity consideration =
      mul commission_pct (abs_num consideration)
  calc_commission (korea_fee commission_pct tax_pct exempt) asset quantity consideration =
      mul commission_pct (abs_num consideration)

  -- `_calc_tax(asset, quantity, consideration)`
  unfoldable pub calc_tax : FeeModel F → String → ℤ → Num → Num
  unfolding listed
  calc_tax zero_fee asset quantity consideration = zero_num F
  calc_tax (fixed_fee commission tax) asset quantity consideration =
      if eq consideration (zero_num F) then zero_num F else tax
  calc_tax (percent_fee commission_pct tax_pct) asset quantity consideration =
      mul tax_pct (abs_num consideration)
  calc_tax (korea_fee commission_pct tax_pct exempt) asset quantity consideration =
      if not (ltb_ℤ quantity (pos 0))
      then zero_num F
      else if listed asset exempt
      then zero_num F
      else mul tax_pct (abs_num consideration)

  -- `calc_total_cost(asset, quantity, consideration)`
  unfoldable pub calc_total_cost : FeeModel F → String → ℤ → Num → Num
  unfolding calc_commission calc_tax
  calc_total_cost model asset quantity consideration =
      add (calc_commission model asset quantity consideration)
        (calc_tax model asset quantity consideration)
