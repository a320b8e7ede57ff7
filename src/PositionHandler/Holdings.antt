-- ===== src/PositionHandler/Holdings.antt =====
-- The holdings: the net quantity of each asset, and how a transaction moves them.
use vm_quant_trader.Prelude.{
  String, ◌≡◌, refl, true, Option, none, some, [], arith, ◌=ₛ◌, =ₛ_iff, if◌then◌else◌, Option-cases,
  inl, inr, Bool-cases, ◌∙◌,
}
use vm_quant_trader.Prelude.Int.{ℤ, pos, ◌+ℤ◌, eqb_ℤ, +ℤ_zero, zero_+ℤ}
use vm_quant_trader.Errors.{Result, ok, err, is_ok}
use vm_quant_trader.Floats.{Floats}
use vm_quant_trader.Dict.{get, put, remove}
use vm_quant_trader.Dict.Laws.{
  HasUniqueKeys, get-put, get-remove, put-HasUniqueKeys, remove-HasUniqueKeys,
}
use vm_quant_trader.Transaction.{Transaction}
use vm_quant_trader.Position.{Position, open_from_transaction, net_quantity, transact}
use vm_quant_trader.Position.Quantity.{net_quantity-open, net_quantity-transact, asset-transact}
use vm_quant_trader.PositionHandler.{Positions, settle, after_transact, transact_position}

module _ {F : Floats} where
  abbrev pub quantity_of : Option (Position F) → ℤ
  quantity_of none = pos 0
  quantity_of (some p) = net_quantity p

  -- What is held of an asset.
  unfoldable pub held : Positions F → String → ℤ
  held d j = quantity_of (get d j)

  -- Every position stands under its own asset, once.
  pub record IsFiled (d : Positions F) : Type 0 where
    pub unique : HasUniqueKeys d
    pub filed : (j : String) (p : Position F) → get d j ≡ some p → p.asset ≡ j

  held-put :
      (d : Positions F) (k j : String) (p : Position F)
      → held (put d k p) j ≡ (if k =ₛ j then net_quantity p else held d j)
  unfolding held
  held-put d k j p = ground (arith, get-put d k j p)

  held-settle :
      (d : Positions F) (k j : String) (p : Position F)
      → HasUniqueKeys d
      → held (settle d k p) j ≡ (if k =ₛ j then net_quantity p else held d j)
  unfolding held
  held-settle d k j p h =
      ground (arith, get-put d k j p, get-remove (put d k p) k j (put-HasUniqueKeys d k p h))

  -- The change that a transaction makes to one asset.
  abbrev pub moved : Transaction F → String → ℤ
  moved t j = if t.asset =ₛ j then t.quantity else pos 0

  held-after_transact :
      (d : Positions F) (k j : String) (r : Result (Unit {0})) (p : Position F)
      → HasUniqueKeys d
      → held (after_transact d k (r, p)).1 j ≡ (if k =ₛ j then net_quantity p else held d j)
  held-after_transact d k j (ok _) p h = held-settle d k j p h
  held-after_transact d k j (err _) p h = held-put d k j p

  held_at :
      (d : Positions F) (k j : String) (p : Position F)
      → get d k ≡ some p
      → (k =ₛ j) ≡ true
      → held d j ≡ net_quantity p
  unfolding held
  held_at d k j p e same = ground (arith, =ₛ_iff k j)

  held_absent :
      (d : Positions F) (k j : String) → get d k ≡ none → (k =ₛ j) ≡ true → held d j ≡ pos 0
  unfolding held
  held_absent d k j e same = ground (arith, =ₛ_iff k j)

  pub step_absent :
      (t : Transaction F) (d : Positions F)
      → get d t.asset ≡ none
      → transact_position t d ≡ (ok tt, settle d t.asset (open_from_transaction t))
  unfolding transact_position
  step_absent t d e = rw (e, transact_position)

  pub step_known :
      (t : Transaction F) (d : Positions F) (p : Position F)
      → get d t.asset ≡ some p
      → transact_position t d ≡ after_transact d t.asset (transact t p)
  unfolding transact_position
  step_known t d p e = rw (e, transact_position)

  is_ok-after_transact :
      (d : Positions F) (k : String) (r : Result (Unit {0})) (p : Position F)
      → is_ok (after_transact d k (r, p)).0 ≡ is_ok r
  is_ok-after_transact d k (ok _) p = refl
  is_ok-after_transact d k (err _) p = refl

  pub is_ok-transact_position :
      (t : Transaction F) (d : Positions F) (p : Position F)
      → get d t.asset ≡ some p
      → is_ok (transact_position t d).0 ≡ is_ok (transact t p).0
  is_ok-transact_position t d p e =
      let (r, q) = transact t p in rw (step_known t d p e) (is_ok-after_transact d t.asset r q)

  -- With the positions filed, of each asset the holdings change by exactly the quantity transacted
  -- in it, and by nothing where the transaction is in another asset; that is so also when the
  -- transaction raises.
  pub held-transact_position :
      (t : Transaction F) (d : Positions F) (j : String)
      → IsFiled d
      → held (transact_position t d).1 j ≡ held d j +ℤ moved t j
  held-transact_position t d j v = elim (Option-cases (get d t.asset)) [
    | inl absent ↦ fresh absent
    | inr (p, e) ↦ known p e
  ]
    where
      fresh : get d t.asset ≡ none → held (transact_position t d).1 j ≡ held d j +ℤ moved t j
      fresh e = rw (step_absent t d e) (
          ground (
            arith,
            +ℤ_zero (held d j),
            zero_+ℤ t.quantity,
            held-settle d t.asset j (open_from_transaction t) v.unique,
            net_quantity-open t,
            held_absent d t.asset j e,
          ))

      known :
          (p : Position F)
          → get d t.asset ≡ some p
          → held (transact_position t d).1 j ≡ held d j +ℤ moved t j
      known p e =
          let (r, q) = transact t p in
          rw (step_known t d p e) (
            ground (
              arith,
              +ℤ_zero (held d j),
              held-after_transact d t.asset j r q v.unique,
              net_quantity-transact t p (v.filed t.asset p e),
              held_at d t.asset j p e,
            ))

  pub put-IsFiled :
      (d : Positions F) (k : String) (p : Position F)
      → IsFiled d
      → p.asset ≡ k
      → IsFiled (put d k p)
  put-IsFiled d k p v e = record {
    unique = put-HasUniqueKeys d k p v.unique;
    filed = λ j q h. ground (arith, get-put d k j p, =ₛ_iff k j, v.filed j q);
  }

  remove-IsFiled : (d : Positions F) (k : String) → IsFiled d → IsFiled (remove d k)
  remove-IsFiled d k v = record {
    unique = remove-HasUniqueKeys d k v.unique;
    filed = λ j q h. ground (arith, get-remove d k j v.unique, v.filed j q);
  }

  settle-IsFiled :
      (d : Positions F) (k : String) (p : Position F)
      → IsFiled d
      → p.asset ≡ k
      → IsFiled (settle d k p)
  settle-IsFiled d k p v e = elim (Bool-cases (eqb_ℤ (net_quantity p) (pos 0))) [
    | inl closed ↦ rw closed (remove-IsFiled (put d k p) k (put-IsFiled d k p v e))
    | inr live ↦ rw live (put-IsFiled d k p v e)
  ]

  after_transact-IsFiled :
      (d : Positions F) (k : String) (r : Result (Unit {0})) (p : Position F)
      → IsFiled d
      → p.asset ≡ k
      → IsFiled (after_transact d k (r, p)).1
  after_transact-IsFiled d k (ok _) p v e = settle-IsFiled d k p v e
  after_transact-IsFiled d k (err _) p v e = put-IsFiled d k p v e

  asset-open : (t : Transaction F) → (open_from_transaction t).asset ≡ t.asset
  unfolding open_from_transaction
  asset-open t = ground arith

  -- A transaction keeps every position under its own asset, and no asset twice.
  pub transact_position-IsFiled :
      (t : Transaction F) (d : Positions F) → IsFiled d → IsFiled (transact_position t d).1
  transact_position-IsFiled t d v = elim (Option-cases (get d t.asset)) [
    | inl e ↦
        rw (step_absent t d e) (settle-IsFiled d t.asset (open_from_transaction t) v (asset-open t))
    | inr (p, e) ↦
        let (r, q) = transact t p in
        rw (step_known t d p e)
          (after_transact-IsFiled d t.asset r q v (asset-transact t p ∙ v.filed t.asset p e))
  ]

pub empty-IsFiled : (F : Floats) → IsFiled {F = F} []
unfolding get
empty-IsFiled F = record { unique = tt; filed = λ j p h. cc }
