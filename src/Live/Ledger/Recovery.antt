-- ===== src/Live/Ledger/Recovery.antt =====
-- What recovery is given to ask about, as a function of everything that the ledger was told.
use vm_quant_trader.Prelude.{
  ℕ, ◌+◌, ◌≡◌, refl, ap, ◌∙◌, String, Bool, true, false, Option, none, some, List, [], ◌∷◌, arith,
  ◌=ₛ◌, =ₛ_iff, =ₛ_refl, if◌then◌else◌, not, Bool-cases, inl, inr, Option-cases,
}
use vm_quant_trader.Prelude.Int.{ℤ}
use vm_quant_trader.Floats.{Floats}
use vm_quant_trader.Dict.{Dict, get, contains, insert_or_ignore, values}
use vm_quant_trader.Dict.Laws.{HasUniqueKeys, get-put, put-HasUniqueKeys}
use vm_quant_trader.Live.Ledger.{
  OrderLedger, OrderRow, State, intent, submitted, filled, rejected, stale, Note, update_order,
  is_terminal, insert_by, sort_by, where_rows, empty_ledger, record_intent, record_submitted,
  record_state, get_order, get_open_orders,
}
use vm_quant_trader.Live.Ledger.Orders.{
  intent_row, IsSortedBy, sort_by-IsSortedBy, get_order-record_intent, get_order-record_submitted,
  get_order-record_state,
}

-- What the ledger is told of orders.
pub data Call : Type 0 where
  intends : (order_id symbol : String) (quantity : ℤ) (dt : ℕ) → Call
  submits : (order_id order_no : String) (dt : ℕ) → Call
  changes : (order_id : String) (new_state : State) (dt : ℕ) (reason : Option Note) → Call

module _ {F : Floats} where
  abbrev pub step : Call → OrderLedger F → OrderLedger F
  step (intends order_id symbol quantity dt) = record_intent order_id symbol quantity dt
  step (submits order_id order_no dt) = record_submitted order_id order_no dt
  step (changes order_id new_state dt reason) = record_state order_id new_state dt reason

  abbrev pub run : List Call → OrderLedger F → OrderLedger F
  run [] l = l
  run (c ∷ cs) l = run cs (step c l)

-- Whether an order in this state may still be at the venue.
abbrev pub is_pending : State → Bool
is_pending intent = true
is_pending submitted = true
is_pending filled = false
is_pending rejected = false
is_pending stale = false

-- What is known of one order: nothing, or whether it is pending. Only an intent makes an order
-- known, and a second one changes nothing; of an unknown order nothing else is kept.
abbrev pub told : String → Call → Option Bool → Option Bool
told id (intends k symbol quantity dt) none = if k =ₛ id then some true else none
told id (intends k symbol quantity dt) (some p) = some p
told id (submits k order_no dt) none = none
told id (submits k order_no dt) (some p) = some (if k =ₛ id then true else p)
told id (changes k new_state dt reason) none = none
told id (changes k new_state dt reason) (some p) =
    some (if k =ₛ id then is_pending new_state else p)

abbrev pub told_all : String → List Call → Option Bool → Option Bool
told_all id [] known = known
told_all id (c ∷ cs) known = told_all id cs (told id c known)

abbrev pub once_if : Option Bool → ℕ
once_if (some true) = 1
once_if _ = 0

-- How many rows are of an order.
abbrev pub rows_of : String → List OrderRow → ℕ
rows_of id [] = 0
rows_of id (row ∷ rows) =
    let rest = rows_of id rows in if row.order_id =ₛ id then rest + 1 else rest

abbrev known_of : Option OrderRow → Option Bool
known_of none = none
known_of (some row) = some (is_pending row.state)

-- Every row is at its own key.
abbrev IsNamed : Dict OrderRow → Type 0
IsNamed d = (id : String) (row : OrderRow) → get d id ≡ some row → row.order_id ≡ id

rows_of-insert_by :
    (id : String) (f : OrderRow → ℕ) (row : OrderRow) (rows : List OrderRow)
    → rows_of id (insert_by f row rows) ≡ rows_of id (row ∷ rows)
unfolding insert_by
rows_of-insert_by id f row [] = refl
rows_of-insert_by id f row (r ∷ rows) = ground (arith, rows_of-insert_by id f row rows)

rows_of-sort_by :
    (id : String) (f : OrderRow → ℕ) (rows : List OrderRow)
    → rows_of id (sort_by f rows) ≡ rows_of id rows
unfolding sort_by
rows_of-sort_by id f [] = refl
rows_of-sort_by id f (row ∷ rows) =
    ground (arith, rows_of-insert_by id f row (sort_by f rows), rows_of-sort_by id f rows)

-- The rows that are pending, of a table with every row once and at its own key.
rows_of-pending :
    (id : String) (d : Dict OrderRow)
    → HasUniqueKeys d
    → IsNamed d
    → rows_of id (where_rows (λ row. not (is_terminal row.state)) (values d))
      ≡ once_if (known_of (get d id))
unfolding where_rows values get contains
rows_of-pending id [] unique named = refl
rows_of-pending id ((k, row) ∷ d) unique named =
    let own = named k row (ground (arith, =ₛ_refl k)) in
    let rest =
      rows_of-pending id d unique.1
        (λ j r e. named j r (ground (arith, e, unique.0, =ₛ_iff k j))) in
    ground (arith, own, rest, unique.0, =ₛ_iff k id)

module _ {F : Floats} where
  record Valid (l : OrderLedger F) : Type 0 where
    unique : HasUniqueKeys l.orders
    named : IsNamed l.orders

  update_order-Valid :
      (id : String) (f : OrderRow → OrderRow) (l : OrderLedger F)
      → ((row : OrderRow) → (f row).order_id ≡ row.order_id)
      → Valid l
      → Valid (update_order id f l)
  unfolding update_order
  update_order-Valid id f l keeps v = elim (Option-cases (get l.orders id)) [
    | inl e ↦ rw (e, update_order) v
    | inr (row, e) ↦
        rw (e, update_order)
          (record {
            unique = put-HasUniqueKeys l.orders id (f row) v.unique;
            named = λ j r h. ground (
              arith,
              h,
              get-put l.orders id j (f row),
              =ₛ_iff id j,
              keeps row,
              v.named id row e,
              v.named j r,
            );
          })
  ]

  step-Valid : (c : Call) (l : OrderLedger F) → Valid l → Valid (step c l)
  unfolding record_intent record_submitted record_state insert_or_ignore
  step-Valid (intends k symbol quantity dt) l v = elim (Bool-cases (contains l.orders k)) [
    | inl there ↦ rw there v
    | inr new ↦ rw new (record {
      unique = put-HasUniqueKeys l.orders k (intent_row k symbol quantity dt) v.unique;
      named = λ j r h. ground (
        arith,
        h,
        get-put l.orders k j (intent_row k symbol quantity dt),
        =ₛ_iff k j,
        v.named j r,
      );
    })
  ]
  step-Valid (submits k order_no dt) l v = update_order-Valid k _ l (λ row. refl) v
  step-Valid (changes k new_state dt reason) l v = update_order-Valid k _ l (λ row. refl) v

  known-step :
      (id : String) (c : Call) (l : OrderLedger F)
      → known_of (get_order id (step c l)) ≡ told id c (known_of (get_order id l))
  known-step id (intends k symbol quantity dt) l =
      ground (arith, get_order-record_intent k symbol quantity dt l id)
  known-step id (submits k order_no dt) l =
      ground (arith, get_order-record_submitted k order_no dt l id)
  known-step id (changes k new_state dt reason) l =
      ground (arith, get_order-record_state k new_state dt reason l id)

  get_open_orders-run_from :
      (id : String) (cs : List Call) (l : OrderLedger F)
      → Valid l
      → rows_of id (get_open_orders (run cs l))
        ≡ once_if (told_all id cs (known_of (get_order id l)))
  unfolding get_open_orders get_order
  get_open_orders-run_from id [] l v =
      rows_of-sort_by id (λ row. row.created_at) _ ∙ rows_of-pending id l.orders v.unique v.named
  get_open_orders-run_from id (c ∷ cs) l v =
      get_open_orders-run_from id cs (step c l) (step-Valid c l v)
      ∙ ap (λ (known : Option Bool). once_if (told_all id cs known)) (known-step id c l)

-- In a new ledger that was told anything of orders, in any order of calls, what recovery is given
-- to ask about has one row of an order when, among what was told of it from its first intent on and
-- leaving further intents aside, the last is that intent, a submission, or a state other than
-- filled, rejected and stale; of every other order it has no row; and the rows are the oldest
-- first.
pub get_open_orders-run :
    (F : Floats) (id : String) (cs : List Call)
    → let rows = get_open_orders (run cs (empty_ledger F)) in
      (rows_of id rows ≡ once_if (told_all id cs none)) × IsSortedBy (λ row. row.created_at) rows
unfolding get_open_orders empty_ledger get_order get
get_open_orders-run F id cs = (
  get_open_orders-run_from id cs (empty_ledger F) (record { unique = tt; named = λ j row e. cc }),
  sort_by-IsSortedBy (λ (row : OrderRow). row.created_at)
      (where_rows (λ row. not (is_terminal row.state)) (values (run cs (empty_ledger F)).orders)),
)
