-- ===== src/Live/Ledger/Orders.antt =====
-- The rows of the order table: what each record changes.
use vm_quant_trader.Prelude.{
  ℕ, ◌≤◌, ◌≡◌, String, not, Option, none, some, List, [], ◌∷◌, arith, ◌=ₛ◌, =ₛ_iff, if◌then◌else◌,
  is_some, inl, inr, ◌&&◌, Option-cases,
}
use vm_quant_trader.Prelude.Int.{ℤ}
use vm_quant_trader.Floats.{Floats}
use vm_quant_trader.Dict.{get}
use vm_quant_trader.Dict.Laws.{get-put}
use vm_quant_trader.Live.Ledger.{
  OrderLedger, OrderRow, State, intent, submitted, Note, update_order, insert_by, sort_by,
  record_intent, record_submitted, record_state, get_order,
}

-- A new row.
abbrev pub intent_row : String → String → ℤ → ℕ → OrderRow
intent_row id symbol q dt = record {
  order_id = id;
  symbol = symbol;
  quantity = q;
  state = intent;
  order_no = none;
  created_at = dt;
  updated_at = dt;
  note = none;
}

module _ {F : Floats} where
  get-update_order :
      (id : String) (f : OrderRow → OrderRow) (l : OrderLedger F) (j : String)
      → get (update_order id f l).orders j
        ≡ elim (get l.orders j) [ none ↦ none | some row ↦ some (if id =ₛ j then f row else row) ]
  unfolding update_order
  get-update_order id f l j = elim (Option-cases (get l.orders id)) [
    | inl absent ↦ ground (arith, =ₛ_iff id j)
    | inr (row, e) ↦ ground (arith, =ₛ_iff id j, get-put l.orders id j (f row))
  ]

  -- An intent is written for an order that has no row, and never over a row that is there; the rows
  -- of other orders stay.
  pub get_order-record_intent :
      (id symbol : String) (q : ℤ) (dt : ℕ) (l : OrderLedger F) (j : String)
      → get_order j (record_intent id symbol q dt l) ≡ (
          if id =ₛ j && not (is_some (get_order j l))
          then some (intent_row id symbol q dt)
          else get_order j l)
  unfolding get_order record_intent
  get_order-record_intent id symbol q dt l j =
      ground (arith, =ₛ_iff id j, get-put l.orders id j (intent_row id symbol q dt))

  pub get_order-record_submitted :
      (id order_no : String) (dt : ℕ) (l : OrderLedger F) (j : String)
      → get_order j (record_submitted id order_no dt l) ≡ elim (get_order j l) [
        | none ↦ none
        | some row ↦ some (
            if id =ₛ j
            then record row { state = submitted; order_no = some order_no; updated_at = dt }
            else row)
      ]
  unfolding get_order record_submitted
  get_order-record_submitted id order_no dt l j = get-update_order id _ l j

  pub get_order-record_state :
      (id : String) (end_state : State) (dt : ℕ) (reason : Option Note) (l : OrderLedger F)
      (j : String)
      → get_order j (record_state id end_state dt reason l) ≡ elim (get_order j l) [
        | none ↦ none
        | some row ↦ some (
            if id =ₛ j
            then record row { state = end_state; updated_at = dt; note = reason }
            else row)
      ]
  unfolding get_order record_state
  get_order-record_state id end_state dt reason l j = get-update_order id _ l j

-- Sorted by a number.
abbrev pub IsSortedBy {ℓ} : {A : Type ℓ} → (A → ℕ) → List A → Type 0
IsSortedBy f [] = Unit
IsSortedBy f (a ∷ []) = Unit
IsSortedBy f (a ∷ b ∷ l) = (f a ≤ f b) × IsSortedBy f (b ∷ l)

module _ {ℓ} {A : Type ℓ} (f : A → ℕ) where
  insert_by-IsSortedBy : (a : A) (l : List A) → IsSortedBy f l → IsSortedBy f (insert_by f a l)
  unfolding insert_by
  insert_by-IsSortedBy a [] h = tt
  insert_by-IsSortedBy a (b ∷ []) h = ground arith
  insert_by-IsSortedBy a (b ∷ c ∷ l) h = ground (arith, insert_by-IsSortedBy a (c ∷ l) h.1)

  pub sort_by-IsSortedBy : (l : List A) → IsSortedBy f (sort_by f l)
  unfolding sort_by
  sort_by-IsSortedBy [] = tt
  sort_by-IsSortedBy (a ∷ l) = insert_by-IsSortedBy a (sort_by f l) (sort_by-IsSortedBy l)
