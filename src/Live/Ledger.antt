-- ===== src/Live/Ledger.antt =====
-- The order ledger (vmtrader/broker/live/ledger.py). A table is a dictionary by its primary key,
-- with its rows in the order of their insertion; every statement is committed before the method
-- returns. All connections open the same file, so there is one ledger. A `str(dt)` is kept as its
-- timestamp: the texts of one clock are in the order of time. Adding the `mode` column to an old
-- file is not modelled.
pub mod Fills
pub mod Orders
pub mod Recovery
pub mod Stamp
mod Tests
use Prim.Native.String.{◌++◌ as append}
use vm_quant_trader.Prelude.{
  ℕ, String, Bool, true, false, not, ◌&&◌, Option, none, some, List, [], ◌∷◌, ◌++◌, leb, ◌==◌, ◌=ₛ◌,
  if◌then◌else◌,
}
use vm_quant_trader.Prelude.Int.{ℤ}
use vm_quant_trader.Errors.{
  Method, Result, ok, err, Exc, ledger_identity_conflict, foreign, ◌>>=◌, ◌>>◌,
}
use vm_quant_trader.Floats.{Floats}
use vm_quant_trader.Dict.{Dict, get, contains, put, insert_or_ignore, values}
use vm_quant_trader.Live.Decimal.{show}

pub data State : Type 0 where
  intent : State
  submitted : State
  filled : State
  rejected : State
  stale : State

-- `state IN TERMINAL_STATES`
abbrev pub is_terminal : State → Bool
is_terminal intent = false
is_terminal submitted = false
is_terminal _ = true

-- A note: text, or the text of an exception.
pub data Note : Type 0 where
  text : String → Note
  of_error : Exc → Note

pub record OrderRow : Type 0 where
  pub order_id : String
  pub symbol : String
  pub quantity : ℤ
  pub state : State
  pub order_no : Option String
  pub created_at : ℕ
  pub updated_at : ℕ
  pub note : Option Note

pub record FillRow (F : Floats) : Type 0 where
  pub fill_key : String
  pub order_id : String
  pub order_no : String
  pub quantity : ℤ
  pub price : F.Num
  pub fees : F.Num
  pub venue_time : Option String
  pub engine_time : ℕ

pub record EquityRow (F : Floats) : Type 0 where
  pub recorded_at : ℕ
  pub total_equity : F.Num
  pub mode : String

pub record OrderLedger (F : Floats) : Type 0 where
  pub orders : Dict OrderRow
  pub fills : Dict (FillRow F)
  pub equity_curve : List (EquityRow F)
  pub meta : Dict String

pub record Identity : Type 0 where
  pub venue : String
  pub mode : String
  pub account_id : String

-- `existing != identity`, of two dictionaries with the same keys
abbrev pub same_identity : Identity → Identity → Bool
same_identity a b = a.venue =ₛ b.venue && a.mode =ₛ b.mode && a.account_id =ₛ b.account_id

-- `ORDER BY`: a stable sort by a number.
module _ {ℓ} {A : Type ℓ} where
  unfoldable pub insert_by : (A → ℕ) → A → List A → List A
  insert_by f a [] = a ∷ []
  insert_by f a (b ∷ l) = if leb (f a) (f b) then a ∷ b ∷ l else b ∷ insert_by f a l

  unfoldable pub sort_by : (A → ℕ) → List A → List A
  unfolding insert_by
  sort_by f [] = []
  sort_by f (a ∷ l) = insert_by f a (sort_by f l)

  -- The rows that a `WHERE` clause lets through.
  unfoldable pub where_rows : (A → Bool) → List A → List A
  where_rows test [] = []
  where_rows test (a ∷ l) = let rest = where_rows test l in if test a then a ∷ rest else rest

-- A ledger in a new file.
unfoldable pub empty_ledger : (F : Floats) → OrderLedger F
empty_ledger F = record { orders = []; fills = []; equity_curve = []; meta = [] }

unfoldable pub fill_key : String → ℕ → String
fill_key order_no cumulative_filled = append order_no (append ":" (show cumulative_filled))

module _ {F : Floats} where
  -- `get_identity()`
  unfoldable pub get_identity : OrderLedger F → Option Identity
  unfolding get
  get_identity l = elim (get l.meta "venue") [
    | none ↦ none
    | some venue ↦ elim (get l.meta "mode") [
      | none ↦ none
      | some mode ↦ elim (get l.meta "account_id") [
        | none ↦ none
        | some account ↦ some (record { venue = venue; mode = mode; account_id = account })
      ]
    ]
  ]

  -- `INSERT INTO meta`, which fails on a key that is there.
  insert_meta : String → String → Method (OrderLedger F) (Unit {0})
  unfolding contains put
  insert_meta k v l =
      if contains l.meta k
      then (err (foreign "UNIQUE constraint failed: meta.key"), l)
      else (ok tt, record l { meta = put l.meta k v })

  -- `stamp_identity(venue, mode, account_id)`; the items of the dictionary are inserted sorted.
  unfoldable pub stamp_identity : Identity → Method (OrderLedger F) (Unit {0})
  unfolding get_identity insert_meta
  stamp_identity i l = elim (get_identity l) [
    | some existing ↦
        if same_identity existing i then (ok tt, l) else (err ledger_identity_conflict, l)
    | none ↦
        (do
          insert_meta "account_id" i.account_id
          insert_meta "mode" i.mode
          insert_meta "venue" i.venue)
          l
  ]

  -- `record_intent(order_id, symbol, quantity, dt)`
  unfoldable pub record_intent : String → String → ℤ → ℕ → OrderLedger F → OrderLedger F
  unfolding insert_or_ignore
  record_intent order_id symbol quantity dt l = record l {
    orders = insert_or_ignore l.orders order_id (record {
      order_id = order_id;
      symbol = symbol;
      quantity = quantity;
      state = intent;
      order_no = none;
      created_at = dt;
      updated_at = dt;
      note = none;
    });
  }

  -- `UPDATE orders SET … WHERE order_id = ?`
  unfoldable pub update_order : String → (OrderRow → OrderRow) → OrderLedger F → OrderLedger F
  unfolding get put
  update_order order_id f l = elim (get l.orders order_id) [
    | none ↦ l
    | some row ↦ record l { orders = put l.orders order_id (f row) }
  ]

  -- `record_submitted(order_id, order_no, dt)`
  unfoldable pub record_submitted : String → String → ℕ → OrderLedger F → OrderLedger F
  unfolding update_order
  record_submitted order_id order_no dt =
      update_order order_id
        λ row. record row { state = submitted; order_no = some order_no; updated_at = dt }

  -- `record_state(order_id, state, dt, note)`
  unfoldable pub record_state : String → State → ℕ → Option Note → OrderLedger F → OrderLedger F
  unfolding update_order
  record_state order_id state dt note =
      update_order order_id λ row. record row { state = state; updated_at = dt; note = note }

  -- `record_fill(…)`: whether this call inserted the row
  unfoldable pub record_fill :
      String
      → String
      → ℕ
      → ℤ
      → F.Num
      → F.Num
      → ℕ
      → Option String
      → OrderLedger F
      → Bool × OrderLedger F
  unfolding contains put fill_key
  record_fill order_id order_no cumulative quantity price fees engine_dt venue_time l =
      let key = fill_key order_no cumulative in
      if contains l.fills key then (false, l) else (
        true,
        record l {
          fills = put l.fills key (record {
            fill_key = key;
            order_id = order_id;
            order_no = order_no;
            quantity = quantity;
            price = price;
            fees = fees;
            venue_time = venue_time;
            engine_time = engine_dt;
          });
        },
      )

  -- `record_equity(dt, total_equity, mode)`: `INSERT OR REPLACE`
  unfoldable pub record_equity : ℕ → F.Num → String → OrderLedger F → OrderLedger F
  unfolding where_rows
  record_equity dt total_equity mode l = record l {
    equity_curve =
        where_rows (λ row. not (row.recorded_at == dt)) l.equity_curve
        ++ record { recorded_at = dt; total_equity = total_equity; mode = mode } ∷ [];
  }

  unfoldable pub get_order : String → OrderLedger F → Option OrderRow
  unfolding get
  get_order order_id l = get l.orders order_id

  -- `get_open_orders()`, oldest first
  unfoldable pub get_open_orders : OrderLedger F → List OrderRow
  unfolding sort_by where_rows values
  get_open_orders l =
      sort_by (λ row. row.created_at)
        (where_rows (λ row. not (is_terminal row.state)) (values l.orders))

  -- `get_fills(order_id)`
  unfoldable pub get_fills : Option String → OrderLedger F → List (FillRow F)
  unfolding sort_by where_rows values
  get_fills none l = sort_by (λ row. row.engine_time) (values l.fills)
  get_fills (some order_id) l =
      sort_by (λ row. row.engine_time)
        (where_rows (λ row. row.order_id =ₛ order_id) (values l.fills))

  -- `get_equity_curve()`, oldest first
  unfoldable pub get_equity_curve : OrderLedger F → List (EquityRow F)
  unfolding sort_by
  get_equity_curve l = sort_by (λ row. row.recorded_at) l.equity_curve
