-- ===== src/Simulated/Update/Returns.antt =====
-- When `update` returns: with a price for everything, at a time that no portfolio is ahead of.
use vm_quant_trader.Prelude.{
  ℕ, ◌≡◌, String, Bool, true, false, some, List, [], ◌∷◌, ◌++◌, arith, =ₛ_iff, Option-cases,
  Bool-cases, inl, inr, All, All-append,
}
use vm_quant_trader.Prelude.Int.{ℤ, leb_ℤ}
use vm_quant_trader.Errors.{Result, ok, err, Method, is_ok, pure, continue}
use vm_quant_trader.Errors.Frame.{Runs, Respects}
use vm_quant_trader.Floats.{Floats, zero_num}
use vm_quant_trader.Dict.{get, contains}
use vm_quant_trader.Dict.Laws.{get-put}
use vm_quant_trader.Order.{Order}
use vm_quant_trader.PositionHandler.Holdings.{IsFiled}
use vm_quant_trader.Portfolio.{Portfolio}
use vm_quant_trader.Portfolio.Timely.{IsTimely}
use vm_quant_trader.Simulated.Market.{Market}
use vm_quant_trader.Simulated.Broker.{Broker, on_portfolio}
use vm_quant_trader.Simulated.Update.{
  Ticket, tickets, the_queue, set_queue, take_orders, insert_order, sort_orders, quoted, unpriced,
}
use vm_quant_trader.Simulated.Sound.{Keeps, IsSound, on_portfolio-Soundly}
use vm_quant_trader.Simulated.Sound.Transfers.{set_queue-IsSound}

-- The market has a price above zero for everything.
pub record IsPriced {F : Floats} (market : Market F) (dt : ℕ) : Type 0 where
  pub mid :
      (asset : String)
      → let x = market.get_asset_latest_mid_price dt asset in
        (F.le x (zero_num F) ≡ false) × (F.lt x (zero_num F) ≡ false)
  pub quote : (order : Order F) → F.le (quoted market dt order) (zero_num F) ≡ false
  pub known : (order : Order F) → unpriced market dt order ≡ false
  pub rounded :
      (order : Order F)
      → (n : ℤ) × (F.round (F.mul (quoted market dt order) (F.of_int order.quantity)) ≡ some n)

-- The broker at `dt`, with the portfolios that `has` says, none of them ahead.
pub record IsReady {F : Floats} (dt : ℕ) (has : String → Bool) (b : Broker F) : Type 0 where
  pub sound : IsSound b
  pub clock : b.current_dt ≡ dt
  pub timely : (id : String) (p : Portfolio F) → get b.portfolios id ≡ some p → IsTimely p dt
  pub domain : (id : String) → contains b.portfolios id ≡ has id

-- A method of a portfolio that returns at `dt`.
abbrev pub Works : {F : Floats} → ℕ → Method (Portfolio F) (Unit {0}) → Type 0
Works {F} dt f =
    (p : Portfolio F)
    → IsFiled p.positions
    → IsTimely p dt
    → (is_ok (f p).0 ≡ true) × IsTimely (f p).1 dt

module _ {F : Floats} (dt : ℕ) (has : String → Bool) where
  pub found_in :
      (id : String) (b : Broker F)
      → IsReady dt has b
      → has id ≡ true
      → (p : Portfolio F) × (get b.portfolios id ≡ some p)
  unfolding contains
  found_in id b v known = elim (Option-cases (get b.portfolios id)) [
    | inl e ↦ ground (arith, e, v.domain id, known)
    | inr found ↦ found
  ]

  pub on_portfolio-Runs :
      (id : String) (f : Method (Portfolio F) (Unit {0}))
      → has id ≡ true
      → Respects Keeps f
      → Works dt f
      → Runs (IsReady dt has) (on_portfolio id f)
  unfolding on_portfolio contains
  on_portfolio-Runs id f known keeps works b v =
      let (p, e) = found_in id b v known in
      let (r, p') = f p in
      let (returns, timely) = works p (v.sound.filed id p e) (v.timely id p e) in
      (
        ground (arith, e, returns),
        record {
          sound = on_portfolio-Soundly id f keeps b v.sound;
          clock = ground (arith, e, v.clock);
          timely = λ k q g.
              ground (arith, e, g, get-put b.portfolios id k p', =ₛ_iff id k, timely, v.timely k q);
          domain = λ k. ground (arith, e, get-put b.portfolios id k p', =ₛ_iff id k, v.domain k);
        },
      )

  -- Every order is for a portfolio that is there.
  abbrev pub AreKnown : List (Ticket F) → Type 0
  AreKnown ts = All (λ (t : Ticket F). has t.0 ≡ true) ts

  AreKnown-insert_order :
      (t : Ticket F) (ts : List (Ticket F))
      → has t.0 ≡ true
      → AreKnown ts
      → AreKnown (insert_order t ts)
  unfolding insert_order
  AreKnown-insert_order t [] h k = (h, tt)
  AreKnown-insert_order t (u ∷ us) h k = elim (Bool-cases (leb_ℤ (t.1).direction (u.1).direction)) [
    | inl before ↦ rw before (h, k)
    | inr after ↦ rw after (k.0, AreKnown-insert_order t us h k.1)
  ]

  pub AreKnown-sort_orders : (ts : List (Ticket F)) → AreKnown ts → AreKnown (sort_orders ts)
  unfolding sort_orders
  AreKnown-sort_orders [] h = tt
  AreKnown-sort_orders (t ∷ ts) h =
      AreKnown-insert_order t (sort_orders ts) h.0 (AreKnown-sort_orders ts h.1)

  AreKnown-tickets : (id : String) (q : List (Order F)) → has id ≡ true → AreKnown (tickets id q)
  AreKnown-tickets id [] h = tt
  AreKnown-tickets id (order ∷ q) h = (h, AreKnown-tickets id q h)

  -- What taking the queues gives.
  abbrev pub Took : Result (List (Ticket F)) × Broker F → Type 0
  Took (ok ts, b) = AreKnown ts × IsReady dt has b
  Took (err e, b) = ⊥

  more-Took :
      (id : String) (q : List (Order F)) (out : Result (List (Ticket F)) × Broker F)
      → has id ≡ true
      → Took out
      → Took (continue (λ (others : List (Ticket F)). pure (tickets id q ++ others)) out)
  more-Took id q (ok ts, b) h (k, v) = (
    All-append (λ (t : Ticket F). has t.0 ≡ true) (tickets id q) ts (AreKnown-tickets id q h) k,
    v,
  )
  more-Took id q (err e, b) h none_taken = none_taken

  pub take_orders-Took :
      (ids : List String) (b : Broker F)
      → All (λ (id : String). has id ≡ true) ids
      → IsReady dt has b
      → Took (take_orders ids b)
  unfolding take_orders set_queue contains
  take_orders-Took [] b h v = (tt, v)
  take_orders-Took (id ∷ ids) b h v = elim (Option-cases (get b.open_orders id)) [
    | inl e ↦ ground (arith, e, v.sound.paired id, v.domain id, h.0)
    | inr (q, e) ↦
        let emptied : IsReady dt has (set_queue id [] b).1 = record {
          sound = set_queue-IsSound id [] q b e v.sound;
          clock = v.clock;
          timely = v.timely;
          domain = v.domain;
        } in
        rw (e, the_queue)
          (more-Took id q (take_orders ids (set_queue id [] b).1) h.0
            (take_orders-Took ids (set_queue id [] b).1 h.1 emptied))
  ]
