-- ===== src/Live/Ledger/Fills.antt =====
-- Fills are recorded at most once: by order number and cumulative quantity, whatever else differs.
use vm_quant_trader.Prelude.{
  not, ℕ, ◌≡◌, String, Bool, true, false, ◌||◌, ◌&&◌, Option, arith, ◌==◌, ◌=ₛ◌, =ₛ_iff, =ₛ_refl,
  Bool-cases, inl, inr,
}
use vm_quant_trader.Prelude.Int.{ℤ}
use vm_quant_trader.Floats.{Floats}
use vm_quant_trader.Dict.{Dict, contains, put}
use vm_quant_trader.Dict.Laws.{get-put}
use vm_quant_trader.Live.Decimal.Injective.{colon_key-injective}
use vm_quant_trader.Live.Ledger.{OrderLedger, fill_key, record_fill}

-- The key stands for one order number and one cumulative quantity.
fill_key-injective : (a b : String) (m n : ℕ) → fill_key a m ≡ fill_key b n → (a ≡ b) × (m ≡ n)
unfolding fill_key
fill_key-injective a b m n h = colon_key-injective a b m n h

fill_key_test : (a b : String) (m n : ℕ) → (fill_key a m =ₛ fill_key b n) ≡ (a =ₛ b && m == n)
fill_key_test a b m n =
    ground (arith, =ₛ_iff (fill_key a m) (fill_key b n), =ₛ_iff a b, fill_key-injective a b m n)

contains-put {ℓ} :
    {V : Type ℓ} (k j : String) (d : Dict V) (v : V)
    → contains (put d k v) j ≡ (contains d j || k =ₛ j)
unfolding contains
contains-put k j d v = ground (arith, get-put d k j v)

module _ {F : Floats} where
  -- Whether the fill of an order at a cumulative quantity is on record.
  unfoldable pub has_fill : OrderLedger F → String → ℕ → Bool
  has_fill l order_no cumulative = contains l.fills (fill_key order_no cumulative)

  fills_same :
      (l : OrderLedger F) (a b : String) (m n : ℕ)
      → contains l.fills (fill_key a m) ≡ true
      → (fill_key a m =ₛ fill_key b n) ≡ true
      → contains l.fills (fill_key b n) ≡ true
  fills_same l a b m n h e = ground (arith, =ₛ_iff (fill_key a m) (fill_key b n))

  -- Recording a fill puts exactly its own pair on record, and reports whether it was new; the
  -- orders, the equity curve and the identity are left alone.
  pub has_fill-record_fill :
      (id order_no : String) (n : ℕ) (q : ℤ) (price fees : F.Num) (dt : ℕ) (at : Option String)
      (l : OrderLedger F) (other : String) (n' : ℕ)
      → let (new, l') = record_fill id order_no n q price fees dt at l in
        (has_fill l' other n' ≡ (has_fill l other n' || (order_no =ₛ other && n == n')))
        × (new ≡ not (has_fill l order_no n))
        × (l'.orders ≡ l.orders)
        × (l'.equity_curve ≡ l.equity_curve)
        × (l'.meta ≡ l.meta)
  unfolding record_fill has_fill
  has_fill-record_fill id order_no n q price fees dt at l other n' =
      elim (Bool-cases (contains l.fills (fill_key order_no n))) [
        | inl old ↦ (
          ground (arith, fill_key_test order_no other n n', fills_same l order_no other n n'),
          ground arith,
          ground arith,
          ground arith,
          ground arith,
        )
        | inr new ↦ (
          rw new (rw (contains-put, fill_key_test order_no other n n')),
          ground arith,
          ground arith,
          ground arith,
          ground arith,
        )
      ]

  -- A second record of the same order number and cumulative quantity is refused and changes
  -- nothing, whatever quantity, price, fees or timestamps it comes with.
  pub record_fill_twice :
      (id id' order_no : String) (n : ℕ) (q q' : ℤ) (price price' fees fees' : F.Num) (dt dt' : ℕ)
      (at at' : Option String) (l : OrderLedger F)
      → let l' = (record_fill id order_no n q price fees dt at l).1 in
        record_fill id' order_no n q' price' fees' dt' at' l' ≡ (false, l')
  unfolding record_fill
  record_fill_twice id id' order_no n q q' price price' fees fees' dt dt' at at' l =
      elim (Bool-cases (contains l.fills (fill_key order_no n))) [
        | inl old ↦ rw old (rw old)
        | inr new ↦ rw new (rw (contains-put, =ₛ_refl) (ground arith))
      ]
