-- ===== src/Live/Collect/Watermark.antt =====
-- The watermark of the portfolio: what a drain leaves as booked of each order.
use vm_quant_trader.Prelude.{
  ℕ, ◌≡◌, refl, String, true, List, [], ◌∷◌, arith, leb, if◌then◌else◌, ◌=ₛ◌, =ₛ_iff,
}
use vm_quant_trader.Errors.{is_ok}
use vm_quant_trader.Floats.{Floats}
use vm_quant_trader.Dict.Laws.{get_or-put}
use vm_quant_trader.Live.Client.{Venue}
use vm_quant_trader.Live.Broker.{Broker, Fill, now, on_portfolio}
use vm_quant_trader.Live.Collect.{
  booked_of, charged_of, book_increment, book_fill, book_fills, drain_fill_buffer,
}

-- The largest total that a run of fills reports of an order, or `n` when that is larger.
abbrev pub latest : {F : Floats} → List (Fill F) → String → ℕ → ℕ
latest [] k n = n
latest (f ∷ fs) k n =
    latest fs k (
      if f.order_no =ₛ k then (if leb f.cumulative_filled n then n else f.cumulative_filled) else n)

module _ {F : Floats} {W : Type 0} (venue : Venue F W) where
  -- The clock of the broker, and its portfolio's method, leave the watermark alone.
  book_increment_booked :
      (f : Fill F) (already : ℕ) (charged : F.Num) (b : Broker F W) (k : String)
      → is_ok (book_increment venue f already charged b).0 ≡ true
      → booked_of (book_increment venue f already charged b).1 k
        ≡ (if f.order_no =ₛ k then f.cumulative_filled else booked_of b k)
  unfolding book_increment booked_of now on_portfolio
  book_increment_booked f already charged b k returns =
      ground (arith, returns, get_or-put b.portfolio_booked f.order_no k f.cumulative_filled 0)

  book_fill_booked :
      (f : Fill F) (b : Broker F W) (k : String)
      → is_ok (book_fill venue f b).0 ≡ true
      → booked_of (book_fill venue f b).1 k ≡ latest (f ∷ []) k (booked_of b k)
  unfolding book_fill
  book_fill_booked f b k returns = ground (
    arith,
    returns,
    =ₛ_iff f.order_no k,
    book_increment_booked f (booked_of b f.order_no) (charged_of b f.order_no) b k,
  )

  -- A run of bookings that returns is its first booking and then the run of the others.
  pub book_fills_step :
      (f : Fill F) (fs : List (Fill F)) (b : Broker F W)
      → is_ok (book_fills venue (f ∷ fs) b).0 ≡ true
      → (is_ok (book_fill venue f b).0 ≡ true)
        × (is_ok (book_fills venue fs (book_fill venue f b).1).0 ≡ true)
        × ((book_fills venue (f ∷ fs) b).1 ≡ (book_fills venue fs (book_fill venue f b).1).1)
  unfolding book_fills
  book_fills_step f fs b returns = ground (arith, returns)

  book_fills_booked :
      (fs : List (Fill F)) (b : Broker F W) (k : String)
      → is_ok (book_fills venue fs b).0 ≡ true
      → booked_of (book_fills venue fs b).1 k ≡ latest fs k (booked_of b k)
  unfolding book_fills
  book_fills_booked [] b k returns = refl
  book_fills_booked (f ∷ fs) b k returns =
      let (first, others, e) = book_fills_step f fs b returns in
      rw (e, book_fills_booked fs (book_fill venue f b).1 k others, book_fill_booked f b k first)
        refl

  -- A drain that returns leaves, of each order, the largest total that the portfolio had or that a
  -- buffered fill reports.
  pub drain_fill_buffer_watermark :
      (b : Broker F W) (k : String)
      → is_ok (drain_fill_buffer venue b).0 ≡ true
      → booked_of (drain_fill_buffer venue b).1 k ≡ latest b.fill_buffer k (booked_of b k)
  unfolding drain_fill_buffer booked_of
  drain_fill_buffer_watermark b k returns =
      book_fills_booked b.fill_buffer (record b { fill_buffer = [] }) k returns
