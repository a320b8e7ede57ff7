-- ===== src/Live/Reconcile/Mismatch.antt =====
-- The comparison of the holdings: which mismatches are reported.
use vm_quant_trader.Prelude.{
  ◌≡◌, refl, String, true, false, none, some, [], ◌∷◌, arith, if◌then◌else◌, ◌=ₛ◌, =ₛ_iff,
}
use vm_quant_trader.Prelude.Int.{ℤ, pos, ltb_ℤ}
use vm_quant_trader.Dict.{Dict, get, get_or, contains}
use vm_quant_trader.Dict.Laws.{HasUniqueKeys}
use vm_quant_trader.Live.Reconcile.{overstatements, untracked_in}

absent : (d : Dict ℤ) (k j : String) → contains d k ≡ false → (k =ₛ j) ≡ true → get d j ≡ none
unfolding contains
absent d k j h e = ground (arith, h, e, =ₛ_iff k j)

-- Where the engine lists no symbol twice, a symbol is reported as overstated exactly when the
-- engine believes to hold more of it than the venue reports, nothing where the venue does not name
-- it; with the two quantities.
pub get-overstatements :
    (believed reported : Dict ℤ) (j : String)
    → HasUniqueKeys believed
    → get (overstatements believed reported) j ≡ elim (get believed j) [
      | none ↦ none
      | some quantity ↦
          if ltb_ℤ (get_or reported j (pos 0)) quantity
          then some (quantity, get_or reported j (pos 0))
          else none
    ]
unfolding overstatements get
get-overstatements [] reported j h = refl
get-overstatements ((k, q) ∷ believed) reported j h =
    ground
      (arith, h.0, =ₛ_iff k j, absent believed k j h.0, get-overstatements believed reported j h.1)

-- A symbol is reported as untracked, with the venue's quantity, exactly when the venue names it and
-- the engine does not.
pub get-untracked_in :
    (believed reported : Dict ℤ) (j : String)
    → get (untracked_in believed reported) j
      ≡ (if contains believed j then none else get reported j)
unfolding untracked_in get
get-untracked_in believed [] j = ground arith
get-untracked_in believed ((k, q) ∷ reported) j =
    ground (arith, =ₛ_iff k j, get-untracked_in believed reported j)
