-- ===== src/Rebalance/Covered.antt =====
-- Which keys the dictionaries and lists of a rebalance have.
use vm_quant_trader.Prelude.{◌≡◌, refl, String, List, [], ◌∷◌, arith, ◌||◌, ◌=ₛ◌, =ₛ_iff}
use vm_quant_trader.Dict.{Dict, get, contains, put}
use vm_quant_trader.Dict.Laws.{get-put}
use vm_quant_trader.FeeModel.{listed}
use vm_quant_trader.Rebalance.Weights.{from_assets}
use vm_quant_trader.Rebalance.Sizer.{insert_item, sorted_items, rescaled}
use vm_quant_trader.Rebalance.Orders.{insert_asset, sorted_set, updated}

module _ {ℓ} {V : Type ℓ} where
  pub contains-put :
      (d : Dict V) (k j : String) (v : V) → contains (put d k v) j ≡ ((k =ₛ j) || contains d j)
  unfolding contains
  contains-put d k j v = ground (arith, get-put d k j v, =ₛ_iff k j)

  contains-insert_item :
      (t : String × V) (d : Dict V) (j : String)
      → contains (insert_item t d) j ≡ ((t.0 =ₛ j) || contains d j)
  unfolding insert_item contains get
  contains-insert_item t [] j = ground arith
  contains-insert_item t (u ∷ us) j = ground (arith, contains-insert_item t us j)

  pub contains-sorted_items : (d : Dict V) (j : String) → contains (sorted_items d) j ≡ contains d j
  unfolding sorted_items contains get
  contains-sorted_items [] j = refl
  contains-sorted_items (t ∷ d) j =
      ground (arith, contains-insert_item t (sorted_items d) j, contains-sorted_items d j)

  pub contains-rescaled :
      (f : V → V) (d : Dict V) (j : String) → contains (rescaled f d) j ≡ contains d j
  unfolding rescaled contains get
  contains-rescaled f [] j = refl
  contains-rescaled f ((k, v) ∷ d) j = ground (arith, contains-rescaled f d j)

  pub contains-from_assets :
      (assets : List String) (x : V) (d : Dict V) (j : String)
      → contains (from_assets assets x d) j ≡ (listed j assets || contains d j)
  unfolding from_assets listed
  contains-from_assets [] x d j = refl
  contains-from_assets (a ∷ more) x d j =
      ground (arith, contains-from_assets more x (put d a x) j, contains-put d a j x)

  pub contains-updated :
      (d : Dict V) (l : List (String × V)) (j : String)
      → contains (updated d l) j ≡ (contains d j || contains l j)
  unfolding updated contains get
  contains-updated d [] j = ground arith
  contains-updated d ((k, v) ∷ l) j =
      ground (arith, contains-updated (put d k v) l j, contains-put d k j v)

listed-insert_asset :
    (a j : String) (l : List String) → listed j (insert_asset a l) ≡ ((a =ₛ j) || listed j l)
unfolding insert_asset listed
listed-insert_asset a j [] = ground arith
listed-insert_asset a j (x ∷ xs) = ground (arith, listed-insert_asset a j xs, =ₛ_iff a x)

pub listed-sorted_set :
    (l rest : List String) (j : String)
    → listed j (sorted_set l rest) ≡ (listed j l || listed j rest)
unfolding sorted_set listed
listed-sorted_set [] rest j = refl
listed-sorted_set (a ∷ more) rest j =
    ground (arith, listed-insert_asset a j (sorted_set more rest), listed-sorted_set more rest j)
