-- ===== src/Live/Submit/Books.antt =====
-- Submitting does not book: the money, the positions and the watermarks stay as they are.
use vm_quant_trader.Prelude.{
  ℕ, ◌≡◌, refl, ◌∙◌, String, Bool, true, false, List, arith, if◌then◌else◌,
}
use vm_quant_trader.Prelude.Int.{ℤ, pos, eqb_ℤ}
use vm_quant_trader.Errors.{Result, ok, err, Exc, Method, pure, ◌>>=◌}
use vm_quant_trader.Errors.Frame.{IsFrame, Respects, Respects-bind}
use vm_quant_trader.Floats.{Floats}
use vm_quant_trader.Dict.{Dict}
use vm_quant_trader.Portfolio.{Portfolio}
use vm_quant_trader.Order.{Order}
use vm_quant_trader.Live.Guards.{check_order}
use vm_quant_trader.Live.Client.{Venue}
use vm_quant_trader.Live.Broker.{Broker, Fill, ask, now, the_portfolio}
use vm_quant_trader.Live.Submit.{clamp_quantity, refuse, answered, send, priced, submit_order}
use vm_quant_trader.Live.Submit.Outcome.{after_answer}

-- What a broker has on its books.
pub record Books (F : Floats) : Type 0 where
  pub portfolios : Dict (Portfolio F)
  pub fill_buffer : List (Fill F)
  pub booked : Dict ℕ
  pub charged : Dict F.Num
  pub current_dt : ℕ

module _ {F : Floats} {W : Type 0} where
  abbrev pub books : Broker F W → Books F
  books b = record {
    portfolios = b.portfolios;
    fill_buffer = b.fill_buffer;
    booked = b.portfolio_booked;
    charged = b.portfolio_charged;
    current_dt = b.current_dt;
  }

  abbrev SameBooks : Broker F W → Broker F W → Type 0
  SameBooks b b' = books b' ≡ books b

  books_frame : IsFrame SameBooks
  books_frame = record { same = λ b. refl; next = λ b c d h k. k ∙ h }

  abbrev BooksNothing : {A : Type 0} → Method (Broker F W) A → Type 0
  BooksNothing m = Respects SameBooks m

  bind_books :
      {A B : Type 0} (m : Method (Broker F W) A) (f : A → Method (Broker F W) B)
      → BooksNothing m
      → ((a : A) → BooksNothing (f a))
      → BooksNothing (m >>= f)
  bind_books m f h k = Respects-bind SameBooks books_frame m f h k

  if_books :
      {A : Type 0} (c : Bool) (m k : Method (Broker F W) A)
      → BooksNothing m
      → BooksNothing k
      → BooksNothing (if c then m else k)
  if_books true m k h h' = h
  if_books false m k h h' = h'

  ask_books : {A : Type 0} (m : Method W A) → BooksNothing (ask {F = F} m)
  ask_books m b = refl

  clamp_books :
      (id : String) (o : Order F) (price : F.Num) → BooksNothing (clamp_quantity {W = W} id o price)
  unfolding clamp_quantity the_portfolio
  clamp_books id o price =
      if_books (eqb_ℤ o.quantity (pos 0)) _ _ (λ b. refl) (bind_books _ _ (λ b. refl) (λ p b. refl))

  refuse_books : (o : Order F) (q : ℤ) (dt : ℕ) (e : Exc) → BooksNothing (refuse {W = W} o q dt e)
  unfolding refuse
  refuse_books o q dt e b = ground arith

  answered_books :
      (id : String) (o : Order F) (q : ℤ) (dt : ℕ) (b : Broker F W) (answer : Result String × W)
      → books (after_answer id o q dt b answer).1 ≡ books b
  unfolding answered
  answered_books id o q dt b (ok order_no, w) = refl
  answered_books id o q dt b (err e, w) = refl

module _ {F : Floats} {W : Type 0} (venue : Venue F W) where
  send_books :
      (id : String) (o : Order F) (q : ℤ) (price : F.Num) (dt : ℕ)
      → BooksNothing (send venue id o q price dt)
  unfolding send
  send_books id o q price dt b = by_check (check_order (venue.path_exists b.world) q price b.guard)
    where
      reached : Result (Unit {0}) → Result (Unit {0}) × Broker F W
      reached (err e) = refuse o q dt e b
      reached (ok _) = after_answer id o q dt b (venue.place_market_order o.asset q b.world)

      by_check : (check : Result (Unit {0})) → books (reached check).1 ≡ books b
      by_check (err e) = refuse_books o q dt e b
      by_check (ok _) = answered_books id o q dt b (venue.place_market_order o.asset q b.world)

  priced_books : (id : String) (o : Order F) (dt : ℕ) → BooksNothing (priced venue id o dt)
  unfolding priced
  priced_books id o dt =
      bind_books (ask (venue.get_asset_latest_ask_price dt o.asset))
        (λ price. clamp_quantity id o price >>= order_of price)
        (ask_books (venue.get_asset_latest_ask_price dt o.asset))
        (λ price.
          bind_books (clamp_quantity id o price) (order_of price) (clamp_books id o price)
            (order_books price))
    where
      order_of : F.Num → ℤ → Method (Broker F W) (Unit {0})
      order_of price q = if eqb_ℤ q (pos 0) then pure tt else send venue id o q price dt

      order_books : (price : F.Num) (q : ℤ) → BooksNothing (order_of price q)
      order_books price q =
          if_books (eqb_ℤ q (pos 0)) (pure tt) (send venue id o q price dt) (λ b. refl)
            (send_books id o q price dt)

  -- Submitting an order changes no portfolio, no buffered fill, no watermark and no timestamp,
  -- whatever it meets: only collecting fills books.
  pub books-submit_order :
      (id : String) (o : Order F) (b : Broker F W) → books (submit_order venue id o b).1 ≡ books b
  unfolding submit_order now
  books-submit_order id o =
      bind_books (now venue)
        (λ dt b. (if venue.is_open_at_datetime dt b.world then priced venue id o dt else pure tt) b)
        (λ b. refl)
        (λ dt b.
          if_books (venue.is_open_at_datetime dt b.world) (priced venue id o dt) (pure tt)
            (priced_books id o dt) (λ b. refl) b)
