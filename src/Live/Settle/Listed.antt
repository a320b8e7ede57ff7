-- ===== src/Live/Settle/Listed.antt =====
-- The open orders and their rows in the ledger.
use vm_quant_trader.Prelude.{
  ℕ, ◌≡◌, ◌≢◌, refl, sym, ◌∙◌, String, Option, none, some, List, [], ◌∷◌, arith, ◌=ₛ◌, =ₛ_iff,
  Bool-cases, inl, inr,
}
use vm_quant_trader.Floats.{Floats}
use vm_quant_trader.Dict.{Dict, get, put, remove}
use vm_quant_trader.Dict.Laws.{
  HasUniqueKeys, get-put, get-remove, put-HasUniqueKeys, remove-HasUniqueKeys,
}
use vm_quant_trader.Live.Ledger.{OrderLedger, State, submitted, Note, get_order, record_state}
use vm_quant_trader.Live.Ledger.Orders.{get_order-record_state}
use vm_quant_trader.Live.Client.{Venue}
use vm_quant_trader.Live.Broker.{Broker, OpenOrder, Fill, now, on_portfolio}
use vm_quant_trader.Live.Collect.{
  booked_of, charged_of, book_increment, book_fill, book_fills, drain_fill_buffer,
}

-- The state of an order in the ledger.
abbrev pub state_of : {F : Floats} → OrderLedger F → String → Option State
state_of l id = elim (get_order id l) [ none ↦ none | some row ↦ some row.state ]

-- Every open order is of another order of the ledger, whose row is submitted.
pub record IsListed {F : Floats} {W : Type 0} (b : Broker F W) : Type 0 where
  pub unique : HasUniqueKeys b.open_orders
  pub distinct :
      (k k' : String) (s s' : OpenOrder F)
      → get b.open_orders k ≡ some s
      → get b.open_orders k' ≡ some s'
      → s.order_id ≡ s'.order_id
      → k ≡ k'
  pub listed :
      (k : String) (s : OpenOrder F)
      → get b.open_orders k ≡ some s
      → state_of b.ledger s.order_id ≡ some submitted

-- What the list depends on.
pub record SameOrders {F : Floats} {W : Type 0} (b b' : Broker F W) : Type 0 where
  pub open_orders : b'.open_orders ≡ b.open_orders
  pub ledger : b'.ledger ≡ b.ledger

-- The order that stood where an order stands now, of the same row.
was_open :
    {F : Floats} (d : Dict (OpenOrder F)) (order_no k : String) (s s' t : OpenOrder F)
    → get d order_no ≡ some s
    → s'.order_id ≡ s.order_id
    → get (put d order_no s') k ≡ some t
    → (u : OpenOrder F) × (get d k ≡ some u) × (t.order_id ≡ u.order_id)
was_open d order_no k s s' t e same g = elim (Bool-cases (order_no =ₛ k)) [
  | inl here ↦ (
    s,
    ground (arith, here, e, =ₛ_iff order_no k),
    ground (arith, here, same, g, get-put d order_no k s'),
  )
  | inr there ↦ (t, ground (arith, there, g, get-put d order_no k s'), refl)
]

module _ {F : Floats} {W : Type 0} where
  pub same-IsListed : (b b' : Broker F W) → SameOrders b b' → IsListed b → IsListed b'
  same-IsListed b b' same v = record {
    unique = rw same.open_orders v.unique;
    distinct = rw same.open_orders v.distinct;
    listed = rw (same.open_orders, same.ledger) v.listed;
  }

  pub put-IsListed :
      (b : Broker F W) (order_no : String) (s s' : OpenOrder F)
      → get b.open_orders order_no ≡ some s
      → s'.order_id ≡ s.order_id
      → IsListed b
      → IsListed (record b { open_orders = put b.open_orders order_no s' })
  put-IsListed b order_no s s' e same v = record {
    unique = put-HasUniqueKeys b.open_orders order_no s' v.unique;
    distinct = λ k k' t t' g g' h.
        let (u, at, kept) = was_open b.open_orders order_no k s s' t e same g in
        let (u', at', kept') = was_open b.open_orders order_no k' s s' t' e same g' in
        v.distinct k k' u u' at at' (sym kept ∙ h ∙ kept');
    listed = λ k t g.
        let (u, at, kept) = was_open b.open_orders order_no k s s' t e same g in
        rw kept (v.listed k u at);
  }

  -- An order that is closed takes its row along, and no other row.
  pub remove-IsListed :
      (b : Broker F W) (order_no : String) (s : OpenOrder F) (w : W) (end_state : State) (dt : ℕ)
      (reason : Option Note)
      → get b.open_orders order_no ≡ some s
      → IsListed b
      → IsListed (record b {
        open_orders = remove b.open_orders order_no;
        world = w;
        ledger = record_state s.order_id end_state dt reason b.ledger;
      })
  remove-IsListed b order_no s w end_state dt reason e v = record {
    unique = remove-HasUniqueKeys b.open_orders order_no v.unique;
    distinct = λ k k' t t' g g' h. v.distinct k k' t t' (still k t g) (still k' t' g') h;
    listed = λ k t g.
        let at = still k t g in
        let other : s.order_id ≢ t.order_id = λ h. away k t g (v.distinct order_no k s t e at h) in
        ground (
          arith,
          v.listed k t at,
          other,
          =ₛ_iff s.order_id t.order_id,
          get_order-record_state s.order_id end_state dt reason b.ledger t.order_id,
        );
  }
    where
      away :
          (k : String) (t : OpenOrder F)
          → get (remove b.open_orders order_no) k ≡ some t
          → order_no ≢ k
      away k t g h =
          ground (arith, g, h, =ₛ_iff order_no k, get-remove b.open_orders order_no k v.unique)

      still :
          (k : String) (t : OpenOrder F)
          → get (remove b.open_orders order_no) k ≡ some t
          → get b.open_orders k ≡ some t
      still k t g = ground (arith, g, get-remove b.open_orders order_no k v.unique)

module _ {F : Floats} {W : Type 0} (venue : Venue F W) where
  book_increment_same :
      (f : Fill F) (already : ℕ) (charged : F.Num) (b : Broker F W)
      → SameOrders b (book_increment venue f already charged b).1
  unfolding book_increment now on_portfolio
  book_increment_same f already charged b = record {
    open_orders = ground arith;
    ledger = ground arith;
  }

  book_fill_same : (f : Fill F) (b : Broker F W) → SameOrders b (book_fill venue f b).1
  unfolding book_fill
  book_fill_same f b = record {
    open_orders = ground (
      arith,
      (book_increment_same f (booked_of b f.order_no) (charged_of b f.order_no) b).open_orders,
    );
    ledger = ground (
      arith,
      (book_increment_same f (booked_of b f.order_no) (charged_of b f.order_no) b).ledger,
    );
  }

  then_same : (b b' b'' : Broker F W) → SameOrders b b' → SameOrders b' b'' → SameOrders b b''
  then_same b b' b'' first next = record {
    open_orders = next.open_orders ∙ first.open_orders;
    ledger = next.ledger ∙ first.ledger;
  }

  book_fills_same : (fs : List (Fill F)) (b : Broker F W) → SameOrders b (book_fills venue fs b).1
  unfolding book_fills
  book_fills_same [] b = record { open_orders = refl; ledger = refl }
  book_fills_same (f ∷ fs) b =
      let first = book_fill_same f b in
      let b' = (book_fill venue f b).1 in
      let next = book_fills_same fs b' in
      record {
        open_orders = ground (arith, first.open_orders, next.open_orders);
        ledger = ground (arith, first.ledger, next.ledger);
      }

  pub drain_same : (b : Broker F W) → SameOrders b (drain_fill_buffer venue b).1
  unfolding drain_fill_buffer
  drain_same b =
      let same = book_fills_same b.fill_buffer (record b { fill_buffer = [] }) in
      record { open_orders = same.open_orders; ledger = same.ledger }
