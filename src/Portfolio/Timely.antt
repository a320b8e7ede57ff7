-- ===== src/Portfolio/Timely.antt =====
-- When booking a transaction returns: the clock of the portfolio and of its positions.
use vm_quant_trader.Prelude.{
  ℕ, ◌≤◌, ◌≡◌, refl, String, true, false, some, arith, Option-cases, inl, inr,
}
use vm_quant_trader.Errors.{Result, ok, err, is_ok}
use vm_quant_trader.Floats.{Floats, zero_num}
use vm_quant_trader.Dict.{get, put}
use vm_quant_trader.Dict.Laws.{get-put, get-remove, put-HasUniqueKeys}
use vm_quant_trader.Transaction.{Transaction}
use vm_quant_trader.Position.{Position, transact, open_from_transaction, update_current_price}
use vm_quant_trader.Position.Quantity.{is_ok-transact}
use vm_quant_trader.PositionHandler.{Positions, settle, after_transact, transact_position}
use vm_quant_trader.PositionHandler.Holdings.{
  IsFiled, step_absent, step_known, is_ok-transact_position,
}
use vm_quant_trader.Portfolio.{Portfolio, transact_asset, update_market_value_of_asset}
use vm_quant_trader.Portfolio.Trades.{is_ok-transact_asset}

module _ {F : Floats} where
  -- No position is later than `now`.
  abbrev AreTimely : Positions F → ℕ → Type 0
  AreTimely d now = (j : String) (q : Position F) → get d j ≡ some q → q.current_dt ≤ now

  -- Neither the portfolio nor a position of it is later than `now`.
  pub record IsTimely (p : Portfolio F) (now : ℕ) : Type 0 where
    pub clock : p.current_dt ≤ now
    pub positions : (j : String) (q : Position F) → get p.positions j ≡ some q → q.current_dt ≤ now

  -- It stays so as time passes.
  pub later-IsTimely : (p : Portfolio F) (n m : ℕ) → n ≤ m → IsTimely p n → IsTimely p m
  later-IsTimely p n m h v = record {
    clock = ground (arith, h, v.clock);
    positions = λ j q e. ground (arith, h, v.positions j q e);
  }

  current_dt-transact :
      (t : Transaction F) (q : Position F)
      → q.current_dt ≤ t.dt
      → (transact t q).1.current_dt ≤ t.dt
  unfolding transact
  current_dt-transact t q h = ground (arith, h)

  current_dt-open : (t : Transaction F) → (open_from_transaction t).current_dt ≡ t.dt
  unfolding open_from_transaction
  current_dt-open t = ground arith

  settle-AreTimely :
      (d : Positions F) (k : String) (p : Position F) (now : ℕ)
      → IsFiled d
      → AreTimely d now
      → p.current_dt ≤ now
      → AreTimely (settle d k p) now
  settle-AreTimely d k p now v h e j q g = ground (
    arith,
    get-put d k j p,
    get-remove (put d k p) k j (put-HasUniqueKeys d k p v.unique),
    h j q,
    e,
    g,
  )

  after_transact-AreTimely :
      (d : Positions F) (k : String) (r : Result (Unit {0})) (p : Position F) (now : ℕ)
      → IsFiled d
      → AreTimely d now
      → p.current_dt ≤ now
      → AreTimely (after_transact d k (r, p)).1 now
  after_transact-AreTimely d k (ok _) p now v h e j q g = settle-AreTimely d k p now v h e j q g
  after_transact-AreTimely d k (err _) p now v h e j q g =
      ground (arith, get-put d k j p, h j q, e, g)

  transact_position-AreTimely :
      (t : Transaction F) (d : Positions F)
      → IsFiled d
      → AreTimely d t.dt
      → AreTimely (transact_position t d).1 t.dt
  transact_position-AreTimely t d v h = elim (Option-cases (get d t.asset)) [
    | inl e ↦ rw (step_absent t d e) (
        settle-AreTimely d t.asset (open_from_transaction t) t.dt v h
          (ground (arith, current_dt-open t)))
    | inr (p, e) ↦
        let (r, q) = transact t p in
        rw (step_known t d p e) (
          after_transact-AreTimely d t.asset r q t.dt v h (current_dt-transact t p (h t.asset p e)))
  ]

  transact_position_returns :
      (t : Transaction F) (d : Positions F)
      → IsFiled d
      → AreTimely d t.dt
      → F.le t.price (zero_num F) ≡ false
      → is_ok (transact_position t d).0 ≡ true
  transact_position_returns t d v h priced = elim (Option-cases (get d t.asset)) [
    | inl e ↦ rw (step_absent t d e) refl
    | inr (p, e) ↦ ground (
      arith,
      priced,
      is_ok-transact_position t d p e,
      h t.asset p e,
      is_ok-transact t p (v.filed t.asset p e),
    )
  ]

  -- A transaction at a price above zero is booked by every portfolio that is not ahead of it and
  -- has its positions filed, and leaves the portfolio and its positions not later than the
  -- transaction.
  pub transact_asset_returns :
      (t : Transaction F) (p : Portfolio F)
      → IsFiled p.positions
      → IsTimely p t.dt
      → F.le t.price (zero_num F) ≡ false
      → (is_ok (transact_asset t p).0 ≡ true) × IsTimely (transact_asset t p).1 t.dt
  unfolding transact_asset
  transact_asset_returns t p v h priced =
      let returns = transact_position_returns t p.positions v h.positions priced in
      let timely = transact_position-AreTimely t p.positions v h.positions in
      (
        ground (arith, returns, is_ok-transact_asset t p h.clock),
        record {
          clock = ground (arith, returns, h.clock);
          positions = λ j q e. ground (arith, returns, h.clock, e, timely j q);
        },
      )

  current_dt-update_current_price :
      (x : F.Num) (dt : ℕ) (q : Position F)
      → q.current_dt ≤ dt
      → F.le x (zero_num F) ≡ false
      → let (r, q') = update_current_price x (some dt) q in (is_ok r ≡ true) × (q'.current_dt ≤ dt)
  unfolding update_current_price
  current_dt-update_current_price x dt q h priced = ground (arith, h, priced)

  -- A mark at a price above zero returns, and the portfolio is not later than the mark.
  pub update_market_value_returns :
      (asset : String) (x : F.Num) (dt : ℕ) (p : Portfolio F)
      → IsTimely p dt
      → F.le x (zero_num F) ≡ false
      → F.lt x (zero_num F) ≡ false
      → let (r, p') = update_market_value_of_asset asset x dt p in (is_ok r ≡ true) × IsTimely p' dt
  unfolding update_market_value_of_asset
  update_market_value_returns asset x dt p v priced positive =
      elim (Option-cases (get p.positions asset)) [
        | inl e ↦ ground (arith, e, v)
        | inr (q, e) ↦
            let (r, q') = update_current_price x (some dt) q in
            let (returns, timely) =
              current_dt-update_current_price x dt q (v.positions asset q e) priced in
            (
              ground (arith, e, positive, v.clock, returns),
              record {
                clock = ground (arith, e, positive, v.clock);
                positions = λ j q'' g. ground (
                  arith,
                  e,
                  positive,
                  v.clock,
                  timely,
                  v.positions j q'',
                  g,
                  get-put p.positions asset j q',
                );
              },
            )
      ]
