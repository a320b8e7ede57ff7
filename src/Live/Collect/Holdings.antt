-- ===== src/Live/Collect/Holdings.antt =====
-- What collecting fills does to the holdings: they move with the watermarks.
use vm_quant_trader.Prelude.{
  ℕ, ◌≤◌, ◌≡◌, refl, String, true, none, some, List, [], ◌∷◌, arith, leb, ltb, if◌then◌else◌,
  =ₛ_iff, Bool-cases, inl, inr, All,
}
use vm_quant_trader.Prelude.Int.{ℤ, pos, ◌+ℤ◌}
use vm_quant_trader.Errors.{is_ok}
use vm_quant_trader.Floats.{Floats}
use vm_quant_trader.Dict.{get, put}
use vm_quant_trader.Dict.Laws.{get-put}
use vm_quant_trader.PositionHandler.Holdings.{held, moved, IsFiled}
use vm_quant_trader.Portfolio.{Portfolio, transact_asset}
use vm_quant_trader.Portfolio.Trades.{transact_asset-Traded, transact_asset_timely}
use vm_quant_trader.Live.Client.{Venue}
use vm_quant_trader.Live.Broker.{Broker, Fill, now, on_portfolio}
use vm_quant_trader.Live.Collect.{
  increment_txn, booked_of, charged_of, book_increment, book_fill, book_fills, drain_fill_buffer,
}
use vm_quant_trader.Live.Collect.Watermark.{book_fills_step}
use vm_quant_trader.Live.Collect.Shares.{
  Terms, share, booked_shares, booked_shares-put, Agrees, moved-share, balance, telescope,
}

-- The broker has the portfolio, with its positions filed.
pub record Has {F : Floats} {W : Type 0} (b : Broker F W) (id : String) : Type 0 where
  pub portfolio : Portfolio F
  pub at : get b.portfolios id ≡ some portfolio
  pub filed : IsFiled portfolio.positions

-- What the portfolio `id` holds of an asset.
abbrev pub holding : {F : Floats} {W : Type 0} → Broker F W → String → String → ℤ
unfolding get
holding b id j = elim (get b.portfolios id) [ none ↦ pos 0 | some p ↦ held p.positions j ]

pub same_holding :
    {F : Floats} {W : Type 0} (b b' : Broker F W) (id j : String)
    → b'.portfolios ≡ b.portfolios
    → holding b' id j ≡ holding b id j
unfolding get
same_holding b b' id j e = rw e refl

-- The broker still has its portfolio, and its holdings moved by as much as its watermarks did.
pub record Kept {F : Floats} {W : Type 0} (terms : Terms) (id : String) (b b' : Broker F W)
    : Type 0 where
  pub has : Has b' id
  pub conserved :
      (j : String)
      → holding b' id j +ℤ booked_shares terms b.portfolio_booked j
        ≡ holding b id j +ℤ booked_shares terms b'.portfolio_booked j

module _ {F : Floats} {W : Type 0} (venue : Venue F W) where
  -- `_now()`
  abbrev pub engine_time : Broker F W → ℕ
  engine_time b = let (t, w) = venue.clock b.world in if ltb t b.current_dt then b.current_dt else t

  book_increment_portfolio :
      (f : Fill F) (already : ℕ) (charged : F.Num) (b : Broker F W) (p : Portfolio F)
      → get b.portfolios f.portfolio_id ≡ some p
      → is_ok (book_increment venue f already charged b).0 ≡ true
      → let (r, q) = transact_asset (increment_txn f already charged (engine_time b)) p in
        let b' = (book_increment venue f already charged b).1 in
        (is_ok r ≡ true)
        × (get b'.portfolios f.portfolio_id ≡ some q)
        × (b'.portfolio_booked ≡ put b.portfolio_booked f.order_no f.cumulative_filled)
  unfolding book_increment now on_portfolio
  book_increment_portfolio f already charged b p e returns =
      let t = increment_txn f already charged (engine_time b) in
      let wrote = get-put b.portfolios f.portfolio_id f.portfolio_id (transact_asset t p).1 in
      ground (arith, returns, e, wrote, =ₛ_iff f.portfolio_id f.portfolio_id)

module _ {F : Floats} {W : Type 0} (venue : Venue F W) (terms : Terms) (id : String) where
  book_increment-Kept :
      (f : Fill F) (charged : F.Num) (b : Broker F W)
      → Has b id
      → Agrees terms id f
      → booked_of b f.order_no ≤ f.cumulative_filled
      → is_ok (book_increment venue f (booked_of b f.order_no) charged b).0 ≡ true
      → Kept terms id b (book_increment venue f (booked_of b f.order_no) charged b).1
  unfolding booked_of
  book_increment-Kept f charged b has agrees more returns =
      let p = has.portfolio in
      let already = booked_of b f.order_no in
      let t = increment_txn f already charged (engine_time venue b) in
      let found : get b.portfolios f.portfolio_id ≡ some p = rw agrees.portfolio has.at in
      let (took, wrote, marked) =
        book_increment_portfolio venue f already charged b p found returns in
      let effect = transact_asset-Traded t p has.filed in
      let timely = transact_asset_timely t p took in
      record {
        has = record {
          portfolio = (transact_asset t p).1;
          at = ground (arith, wrote, agrees.portfolio);
          filed = effect.filed;
        };
        conserved = λ j.
            let moves =
              balance (held p.positions j) (moved t j) (booked_shares terms b.portfolio_booked j)
                (booked_shares terms (put b.portfolio_booked f.order_no f.cumulative_filled) j)
                (share terms f.order_no j already) (share terms f.order_no j f.cumulative_filled)
                (moved-share terms f already charged (engine_time venue b) j id agrees more)
                (booked_shares-put terms b.portfolio_booked f.order_no j f.cumulative_filled) in
            ground
              (arith, wrote, has.at, agrees.portfolio, timely, effect.holdings j, marked, moves);
      }

  same-Kept : (b : Broker F W) → Has b id → Kept terms id b b
  same-Kept b has = record { has = has; conserved = λ j. refl }

  then-Kept :
      (b b' b'' : Broker F W) → Kept terms id b b' → Kept terms id b' b'' → Kept terms id b b''
  then-Kept b b' b'' first next = record {
    has = next.has;
    conserved = λ j.
        telescope (holding b id j) (holding b' id j) (holding b'' id j)
          (booked_shares terms b.portfolio_booked j) (booked_shares terms b'.portfolio_booked j)
          (booked_shares terms b''.portfolio_booked j) (first.conserved j) (next.conserved j);
  }

  book_fill-Kept :
      (f : Fill F) (b : Broker F W)
      → Has b id
      → Agrees terms id f
      → is_ok (book_fill venue f b).0 ≡ true
      → Kept terms id b (book_fill venue f b).1
  unfolding book_fill
  book_fill-Kept f b has agrees returns =
      elim (Bool-cases (leb f.cumulative_filled (booked_of b f.order_no))) [
        | inl seen ↦ rw seen (same-Kept b has)
        | inr new ↦ rw new (
            book_increment-Kept f (charged_of b f.order_no) b has agrees (ground (arith, new))
              (ground (arith, new, returns)))
      ]

  book_fills-Kept :
      (fs : List (Fill F)) (b : Broker F W)
      → Has b id
      → All (Agrees terms id) fs
      → is_ok (book_fills venue fs b).0 ≡ true
      → Kept terms id b (book_fills venue fs b).1
  unfolding book_fills
  book_fills-Kept [] b has agree returns = same-Kept b has
  book_fills-Kept (f ∷ fs) b has (agrees, agree) returns =
      let (first, others, e) = book_fills_step venue f fs b returns in
      let kept = book_fill-Kept f b has agrees first in
      let b' = (book_fill venue f b).1 in
      rw e (
        then-Kept b b' (book_fills venue fs b').1 kept
          (book_fills-Kept fs b' kept.has agree others))

  -- At a broker that has the portfolio, filed: a drain that returns, of fills that agree with their
  -- orders, moves the holdings by exactly as much as the watermarks: of every asset, what is held
  -- less what the watermarks say was booked stays the same.
  pub drain_fill_buffer-Kept :
      (b : Broker F W)
      → Has b id
      → All (Agrees terms id) b.fill_buffer
      → is_ok (drain_fill_buffer venue b).0 ≡ true
      → Kept terms id b (drain_fill_buffer venue b).1
  unfolding drain_fill_buffer
  drain_fill_buffer-Kept b has agree returns =
      let kept =
        book_fills-Kept b.fill_buffer (record b { fill_buffer = [] })
          (record { portfolio = has.portfolio; at = has.at; filed = has.filed }) agree returns in
      record { has = kept.has; conserved = kept.conserved }
