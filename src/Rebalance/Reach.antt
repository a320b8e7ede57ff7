-- ===== src/Rebalance/Reach.antt =====
-- The rebalancing orders are the difference between the target and what is held.
use vm_quant_trader.Prelude.{
  ℕ, ◌≡◌, refl, ◌∙◌, String, true, false, List, [], ◌∷◌, arith, ◌=ₛ◌, =ₛ_iff, if◌then◌else◌, All,
  ap, Bool-cases, inl, inr,
}
use vm_quant_trader.Prelude.Int.{ℤ, pos, pos_part, neg_part, ◌+ℤ◌, ◌-ℤ◌, eqb_ℤ, int_laws, +ℤ_zero}
use vm_quant_trader.Floats.{Floats}
use vm_quant_trader.Dict.{Dict, get, get_or, contains, put}
use vm_quant_trader.Dict.Laws.{HasUniqueKeys, get-put}
use vm_quant_trader.Order.{Order}
use vm_quant_trader.Transaction.{sign}
use vm_quant_trader.Simulated.Update.Shares.{ordered}
use vm_quant_trader.Rebalance.Sizer.{insert_item, sorted_items}
use vm_quant_trader.Rebalance.Orders.{
  with_missing, differences, orders_of, generate_rebalance_orders,
}

-- The sum of the items of one asset.
abbrev tally : List (String × ℤ) → String → ℤ
tally [] j = pos 0
tally ((asset, q) ∷ items) j = let rest = tally items j in if asset =ₛ j then q +ℤ rest else rest

swap_first : (a b c : ℤ) → a +ℤ (b +ℤ c) ≡ b +ℤ (a +ℤ c)
swap_first a b c = omega int_laws

tally-insert_item :
    (t : String × ℤ) (items : List (String × ℤ)) (j : String)
    → tally (insert_item t items) j ≡ tally (t ∷ items) j
unfolding insert_item
tally-insert_item t [] j = refl
tally-insert_item t (u ∷ us) j =
    ground (arith, tally-insert_item t us j, swap_first t.1 u.1 (tally us j))

tally-sorted_items : (d : Dict ℤ) (j : String) → tally (sorted_items d) j ≡ tally d j
unfolding sorted_items
tally-sorted_items [] j = refl
tally-sorted_items (t ∷ d) j =
    ground (arith, tally-insert_item t (sorted_items d) j, tally-sorted_items d j)

tally_absent : (d : Dict ℤ) (j : String) → contains d j ≡ false → tally d j ≡ pos 0
unfolding contains get
tally_absent [] j h = refl
tally_absent ((k, q) ∷ d) j h = ground (arith, h, tally_absent d j)

none_left : (q rest : ℤ) → eqb_ℤ q (pos 0) ≡ true → q +ℤ rest ≡ rest
unfolding ◌+ℤ◌
none_left q rest h = ground (arith, h)

ordered-orders_of :
    (F : Floats) (ids : String → String) (dt : ℕ) (items : List (String × ℤ)) (j : String)
    → ordered (orders_of {F = F} ids dt items) j ≡ tally items j
unfolding orders_of
ordered-orders_of F ids dt [] j = refl
ordered-orders_of F ids dt ((asset, q) ∷ items) j =
    ground (arith, ordered-orders_of F ids dt items j, none_left q (tally items j))

get_or-put_zero :
    (current : Dict ℤ) (asset j : String)
    → contains current asset ≡ false
    → get_or (put current asset (pos 0)) j (pos 0) ≡ get_or current j (pos 0)
unfolding get_or contains
get_or-put_zero current asset j h = ground (arith, get-put current asset j (pos 0), =ₛ_iff asset j)

get_or-with_missing :
    (target current : Dict ℤ) (j : String)
    → get_or (with_missing target current) j (pos 0) ≡ get_or current j (pos 0)
unfolding with_missing
get_or-with_missing [] current j = refl
get_or-with_missing ((asset, q) ∷ target) current j = elim (Bool-cases (contains current asset)) [
  | inl there ↦ rw there (get_or-with_missing target current j)
  | inr missing ↦ rw missing (
      get_or-with_missing target (put current asset (pos 0)) j
      ∙ get_or-put_zero current asset j missing)
]

contains-differences :
    (target current : Dict ℤ) (j : String)
    → contains (differences target current) j ≡ contains target j
unfolding differences contains get
contains-differences [] current j = refl
contains-differences ((asset, q) ∷ target) current j =
    ground (arith, contains-differences target current j)

tally-differences :
    (target current : Dict ℤ) (j : String)
    → HasUniqueKeys target
    → tally (differences target current) j
      ≡ (if contains target j then get_or target j (pos 0) -ℤ get_or current j (pos 0) else pos 0)
unfolding differences contains get_or get
tally-differences [] current j h = refl
tally-differences ((asset, q) ∷ target) current j h =
    let rest = differences target current in
    ground (
      arith,
      h.0,
      =ₛ_iff asset j,
      tally_absent rest j,
      contains-differences target current j,
      tally-differences target current j h.1,
      +ℤ_zero (q -ℤ get_or current asset (pos 0)),
    )

-- Reaching a target from what is there.
reached : (a t c : ℤ) → t ≡ a -ℤ c → c +ℤ t ≡ a
reached a t c h = omega (int_laws, ap pos_part h, ap neg_part h)

-- An order that trades something, in the direction of its quantity.
abbrev pub IsTrade : {F : Floats} → Order F → Type 0
IsTrade order = (eqb_ℤ order.quantity (pos 0) ≡ false) × (order.direction ≡ sign order.quantity)

orders_of-IsTrade :
    (F : Floats) (ids : String → String) (dt : ℕ) (items : List (String × ℤ))
    → All (IsTrade {F = F}) (orders_of {F = F} ids dt items)
unfolding orders_of
orders_of-IsTrade F ids dt [] = tt
orders_of-IsTrade F ids dt ((asset, q) ∷ items) = elim (Bool-cases (eqb_ℤ q (pos 0))) [
  | inl nothing ↦ rw nothing (orders_of-IsTrade F ids dt items)
  | inr something ↦ rw something ((something, refl), orders_of-IsTrade F ids dt items)
]

-- For a target that names no asset twice: of every asset, what is held and what the rebalancing
-- orders buy, less what they sell, is what the target says if it names the asset, and what is held
-- if it does not. No order is for nothing, and each goes in the direction of its quantity.
pub generate_rebalance_orders_reach :
    (F : Floats) (ids : String → String) (dt : ℕ) (target current : Dict ℤ)
    → HasUniqueKeys target
    → let orders = generate_rebalance_orders {F = F} ids dt target current in
      ((j : String)
        → get_or current j (pos 0) +ℤ ordered orders j
          ≡ (if contains target j then get_or target j (pos 0) else get_or current j (pos 0)))
      × All (IsTrade {F = F}) orders
unfolding generate_rebalance_orders
generate_rebalance_orders_reach F ids dt target current unique =
    let all = with_missing target current in
    let items = sorted_items (differences target all) in
    (
      λ j. ground (
        arith,
        ordered-orders_of F ids dt items j,
        tally-sorted_items (differences target all) j,
        tally-differences target all j unique,
        get_or-with_missing target current j,
        +ℤ_zero (get_or current j (pos 0)),
        reached (get_or target j (pos 0)) (tally (differences target all) j)
            (get_or current j (pos 0)),
      ),
      orders_of-IsTrade F ids dt items,
    )
