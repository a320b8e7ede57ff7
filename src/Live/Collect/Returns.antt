-- ===== src/Live/Collect/Returns.antt =====
-- When booking what was collected returns.
use vm_quant_trader.Prelude.{
  ℕ, ◌≤◌, ◌≡◌, refl, ◌∙◌, String, true, false, some, List, [], ◌∷◌, arith, leb, =ₛ_iff, Bool-cases,
  inl, inr, All,
}
use vm_quant_trader.Errors.{is_ok}
use vm_quant_trader.Floats.{Floats, zero_num}
use vm_quant_trader.Dict.{get}
use vm_quant_trader.Dict.Laws.{get-put}
use vm_quant_trader.PositionHandler.Holdings.{IsFiled}
use vm_quant_trader.Portfolio.{Portfolio, transact_asset}
use vm_quant_trader.Portfolio.Trades.{transact_asset-Traded}
use vm_quant_trader.Portfolio.Timely.{IsTimely, later-IsTimely, transact_asset_returns}
use vm_quant_trader.Live.Client.{Venue}
use vm_quant_trader.Live.Broker.{Broker, Fill, now, on_portfolio}
use vm_quant_trader.Live.Collect.{
  increment_txn, booked_of, charged_of, book_increment, book_fill, book_fills, drain_fill_buffer,
}
use vm_quant_trader.Live.Collect.Holdings.{engine_time}

-- The broker has the portfolio, filed, and neither it nor its positions are ahead of the broker.
pub record IsReady {F : Floats} {W : Type 0} (id : String) (b : Broker F W) : Type 0 where
  pub portfolio : Portfolio F
  pub at : get b.portfolios id ≡ some portfolio
  pub filed : IsFiled portfolio.positions
  pub timely : IsTimely portfolio b.current_dt

-- A fill for the portfolio `id`, at a price above zero.
pub record IsPriced {F : Floats} (id : String) (f : Fill F) : Type 0 where
  pub portfolio : f.portfolio_id ≡ id
  pub price : F.le f.price (zero_num F) ≡ false

module _ {F : Floats} {W : Type 0} (venue : Venue F W) (id : String) where
  increment_at :
      (f : Fill F) (already : ℕ) (charged : F.Num) (b : Broker F W) (p : Portfolio F)
      → get b.portfolios f.portfolio_id ≡ some p
      → let (r, q) = transact_asset (increment_txn f already charged (engine_time venue b)) p in
        let b' = (book_increment venue f already charged b).1 in
        (is_ok (book_increment venue f already charged b).0 ≡ is_ok r)
        × (get b'.portfolios f.portfolio_id ≡ some q)
        × (b'.current_dt ≡ engine_time venue b)
  unfolding book_increment now on_portfolio
  increment_at f already charged b p e =
      let t = increment_txn f already charged (engine_time venue b) in
      let wrote = get-put b.portfolios f.portfolio_id f.portfolio_id (transact_asset t p).1 in
      ground (arith, e, wrote, =ₛ_iff f.portfolio_id f.portfolio_id)

  book_increment_returns :
      (f : Fill F) (already : ℕ) (charged : F.Num) (b : Broker F W)
      → IsReady id b
      → IsPriced id f
      → (is_ok (book_increment venue f already charged b).0 ≡ true)
        × IsReady id (book_increment venue f already charged b).1
  unfolding increment_txn
  book_increment_returns f already charged b ready priced =
      let p = ready.portfolio in
      let t = increment_txn f already charged (engine_time venue b) in
      let found : get b.portfolios f.portfolio_id ≡ some p = rw priced.portfolio ready.at in
      let (same, wrote, time) = increment_at f already charged b p found in
      let late : b.current_dt ≤ engine_time venue b = ground arith in
      let (took, timely) =
        transact_asset_returns t p ready.filed
          (later-IsTimely p b.current_dt t.dt late ready.timely) priced.price in
      (
        same ∙ took,
        record {
          portfolio = (transact_asset t p).1;
          at = ground (arith, wrote, priced.portfolio);
          filed = (transact_asset-Traded t p ready.filed).filed;
          timely = rw time timely;
        },
      )

  book_fill_returns :
      (f : Fill F) (b : Broker F W)
      → IsReady id b
      → IsPriced id f
      → (is_ok (book_fill venue f b).0 ≡ true) × IsReady id (book_fill venue f b).1
  unfolding book_fill
  book_fill_returns f b ready priced =
      elim (Bool-cases (leb f.cumulative_filled (booked_of b f.order_no))) [
        | inl seen ↦ rw seen (refl, ready)
        | inr new ↦ rw new (
            book_increment_returns f (booked_of b f.order_no) (charged_of b f.order_no) b ready
              priced)
      ]

  after_first :
      (f : Fill F) (fs : List (Fill F)) (b : Broker F W)
      → is_ok (book_fill venue f b).0 ≡ true
      → (is_ok (book_fills venue (f ∷ fs) b).0
          ≡ is_ok (book_fills venue fs (book_fill venue f b).1).0)
        × ((book_fills venue (f ∷ fs) b).1 ≡ (book_fills venue fs (book_fill venue f b).1).1)
  unfolding book_fills
  after_first f fs b returns = ground (arith, returns)

  book_fills_returns :
      (fs : List (Fill F)) (b : Broker F W)
      → IsReady id b
      → All (IsPriced id) fs
      → (is_ok (book_fills venue fs b).0 ≡ true) × IsReady id (book_fills venue fs b).1
  unfolding book_fills
  book_fills_returns [] b ready priced = (refl, ready)
  book_fills_returns (f ∷ fs) b ready (first, others) =
      let (took, ready') = book_fill_returns f b ready first in
      let (same, e) = after_first f fs b took in
      let (returns, ready'') = book_fills_returns fs (book_fill venue f b).1 ready' others in
      (same ∙ returns, rw e ready'')

  -- A drain of fills at prices above zero, for a filed portfolio that is not ahead of the broker,
  -- returns whatever the clock says, and leaves a broker whose portfolio is not ahead of it.
  pub drain_fill_buffer_returns :
      (b : Broker F W)
      → IsReady id b
      → All (IsPriced id) b.fill_buffer
      → (is_ok (drain_fill_buffer venue b).0 ≡ true) × IsReady id (drain_fill_buffer venue b).1
  unfolding drain_fill_buffer
  drain_fill_buffer_returns b ready priced =
      book_fills_returns b.fill_buffer (record b { fill_buffer = [] })
        (record {
          portfolio = ready.portfolio;
          at = ready.at;
          filed = ready.filed;
          timely = ready.timely;
        })
        priced
