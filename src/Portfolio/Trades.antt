-- ===== src/Portfolio/Trades.antt =====
-- What a transaction does to the holdings and the cash of a portfolio, on every branch.
use vm_quant_trader.Prelude.{
  ◌≤◌, ◌≡◌, refl, String, Bool, true, false, ◌||◌, none, some, [], ◌∷◌, arith, ltb, if◌then◌else◌,
  Bool-cases, inl, inr, =ₛ_iff,
}
use vm_quant_trader.Prelude.Int.{pos, ◌+ℤ◌, eqb_ℤ}
use vm_quant_trader.Errors.{is_ok}
use vm_quant_trader.Floats.{Floats, zero_num}
use vm_quant_trader.Dict.{get}
use vm_quant_trader.Transaction.{Transaction, cost_with_commission}
use vm_quant_trader.Position.{Position}
use vm_quant_trader.Position.Quantity.{is_ok-transact}
use vm_quant_trader.PositionHandler.{Positions, transact_position}
use vm_quant_trader.PositionHandler.Holdings.{
  held, moved, IsFiled, held-transact_position, transact_position-IsFiled, is_ok-transact_position,
}
use vm_quant_trader.Portfolio.{Portfolio, transact_asset, portfolio_to_dict, rows, row_of}

module _ {F : Floats} where
  -- What a transaction changes, given whether the call returned.
  pub record Traded (t : Transaction F) (p q : Portfolio F) (done : Bool) : Type 0 where
    pub holdings :
        (j : String)
        → held q.positions j
          ≡ (if ltb t.dt p.current_dt then held p.positions j else held p.positions j +ℤ moved t j)
    pub cash : q.cash ≡ (if done then F.sub p.cash (cost_with_commission t) else p.cash)
    pub filed : IsFiled q.positions
    pub history : (if done then p.history else q.history) ≡ p.history

  -- In a portfolio with its positions filed, a transaction changes of each asset the holding, by
  -- the quantity transacted in it, unless it is earlier than the portfolio; and the cash, by the
  -- full cost, only when the call returns. When it raises, the history stays as it was. The
  -- positions stay filed.
  pub transact_asset-Traded :
      (t : Transaction F) (p : Portfolio F)
      → IsFiled p.positions
      → Traded t p (transact_asset t p).1 (is_ok (transact_asset t p).0)
  unfolding transact_asset
  transact_asset-Traded t p v = elim (Bool-cases (ltb t.dt p.current_dt)) [
    | inl late ↦ record {
      holdings = λ j. ground arith;
      cash = ground arith;
      filed = ground arith;
      history = ground arith;
    }
    | inr timely ↦ record {
      holdings = λ j. ground (arith, held-transact_position t p.positions j v);
      cash = ground arith;
      filed = ground (arith, transact_position-IsFiled t p.positions v);
      history = ground arith;
    }
  ]

  -- A transaction that is booked is not earlier than the portfolio.
  pub transact_asset_timely :
      (t : Transaction F) (p : Portfolio F)
      → is_ok (transact_asset t p).0 ≡ true
      → ltb t.dt p.current_dt ≡ false
  unfolding transact_asset
  transact_asset_timely t p returns = ground arith

  -- Past the clock, the call returns exactly when booking the position does.
  pub is_ok-transact_asset :
      (t : Transaction F) (p : Portfolio F)
      → p.current_dt ≤ t.dt
      → is_ok (transact_asset t p).0 ≡ is_ok (transact_position t p.positions).0
  unfolding transact_asset
  is_ok-transact_asset t p timely = ground arith

  unpaid_raises :
      (t : Transaction F) (p : Portfolio F) (q : Position F)
      → IsFiled p.positions
      → get p.positions t.asset ≡ some q
      → eqb_ℤ t.quantity (pos 0) ≡ false
      → p.current_dt ≤ t.dt
      → (ltb t.dt q.current_dt || F.le t.price (zero_num F)) ≡ true
      → is_ok (transact_asset t p).0 ≡ false
  unpaid_raises t p q v e some_quantity timely refused = ground (
    arith,
    is_ok-transact_asset t p timely,
    is_ok-transact_position t p.positions q e,
    is_ok-transact t q (v.filed t.asset q e),
  )

  -- A call with a quantity other than zero and not earlier than the portfolio, which has its
  -- positions filed, finds a position in the asset, and raises because its price is not above zero
  -- or its timestamp is earlier than the position's, has moved the holding all the same; the cash
  -- and the history are as before, so what was booked has not been paid for.
  pub transact_asset_unpaid :
      (t : Transaction F) (p : Portfolio F) (q : Position F)
      → IsFiled p.positions
      → get p.positions t.asset ≡ some q
      → eqb_ℤ t.quantity (pos 0) ≡ false
      → p.current_dt ≤ t.dt
      → (ltb t.dt q.current_dt || F.le t.price (zero_num F)) ≡ true
      → let (r, p') = transact_asset t p in
        (is_ok r ≡ false)
        × (held p'.positions t.asset ≡ held p.positions t.asset +ℤ t.quantity)
        × (p'.cash ≡ p.cash)
        × (p'.history ≡ p.history)
  transact_asset_unpaid t p q v e some_quantity timely refused =
      let raises = unpaid_raises t p q v e some_quantity timely refused in
      let effect = transact_asset-Traded t p v in
      (
        raises,
        ground (arith, raises, effect.holdings t.asset, =ₛ_iff t.asset t.asset),
        ground (arith, raises, effect.cash),
        ground (arith, raises, effect.history),
      )

  -- The dictionary form has a row for each position and no other; its quantity is what is held.
  pub get-portfolio_to_dict :
      (p : Portfolio F) (j : String)
      → get (portfolio_to_dict p) j
        ≡ elim (get p.positions j) [ none ↦ none | some q ↦ some (row_of q) ]
  unfolding portfolio_to_dict get
  get-portfolio_to_dict p j = rows_get p.positions
    where
      rows_get :
          (d : Positions F)
          → get (rows d) j ≡ elim (get d j) [ none ↦ none | some q ↦ some (row_of q) ]
      rows_get [] = refl
      rows_get ((k, q) ∷ d) = ground (arith, rows_get d)
