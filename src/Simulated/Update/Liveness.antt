-- ===== src/Simulated/Update/Liveness.antt =====
-- `update` returns, given prices.
use mathlib.Core.Path.{subst}
use vm_quant_trader.Prelude.{
  sym, ℕ, ◌≡◌, refl, String, Bool, true, false, some, List, [], ◌∷◌, arith, =ₛ_refl, Bool-cases,
  inl, inr, All, ap, if◌then◌else◌,
}
use vm_quant_trader.Prelude.Int.{ℤ, pos_part, neg_part, ◌+ℤ◌, int_laws, +ℤ_zero}
use vm_quant_trader.Errors.{Result, ok, err, is_ok, continue}
use vm_quant_trader.Errors.Frame.{Runs, Runs-bind}
use vm_quant_trader.Floats.{Floats, zero_num}
use vm_quant_trader.Dict.{get, keys, contains}
use vm_quant_trader.Order.{Order}
use vm_quant_trader.FeeModel.{listed, calc_total_cost}
use vm_quant_trader.Transaction.{Transaction}
use vm_quant_trader.Portfolio.{Portfolio, transact_asset, update_market_value_of_asset}
use vm_quant_trader.Portfolio.Timely.{IsTimely, transact_asset_returns, update_market_value_returns}
use vm_quant_trader.Simulated.Market.{Market}
use vm_quant_trader.Simulated.Broker.{Broker, the_portfolio, on_portfolio}
use vm_quant_trader.Simulated.Update.{
  Ticket, take_orders, sort_orders, execution, symbols_of, quoted, consideration, execute_order,
  execute_orders, mark_symbols, mark_portfolios, trade, trade_when_open, update,
}
use vm_quant_trader.Simulated.Update.Returns.{
  IsPriced, IsReady, Works, found_in, on_portfolio-Runs, AreKnown, AreKnown-sort_orders, Took,
  take_orders-Took,
}
use vm_quant_trader.Simulated.Update.Conserves.{Conserves, listed-keys, update-Conserves}
use vm_quant_trader.Simulated.Update.Shares.{holding, queue_of, waiting}
use vm_quant_trader.Simulated.Sound.{IsSound, transact_asset-Keeps, mark-Keeps}

cancelled : (h h' w : ℤ) → h' +ℤ w ≡ h +ℤ w → h' ≡ h
cancelled h h' w e = omega (int_laws, ap pos_part e, ap neg_part e)

transact_asset-Works :
    {F : Floats} (dt : ℕ) (t : Transaction F)
    → t.dt ≡ dt
    → F.le t.price (zero_num F) ≡ false
    → Works dt (transact_asset t)
transact_asset-Works dt t e priced p filed timely =
    let (returns, after) =
      transact_asset_returns t p filed (subst (IsTimely p) (sym e) timely) priced in
    (returns, subst (IsTimely (transact_asset t p).1) e after)

module _ {F : Floats} (market : Market F) (dt : ℕ) (priced : IsPriced market dt)
    (has : String → Bool) where
  execute_order-Runs :
      (id : String) (order : Order F)
      → has id ≡ true
      → Runs (IsReady dt has) (execute_order market dt id order)
  unfolding execute_order consideration the_portfolio
  execute_order-Runs id order known b v =
      let (p, found) = found_in dt has id b v known in
      let (n, rounded) = priced.rounded order in
      let fees = calc_total_cost b.fee_model order.asset order.quantity (F.of_int n) in
      let t = execution b.current_dt (quoted market dt order) fees order in
      let works = transact_asset-Works dt t v.clock (priced.quote order) in
      let (returns, ready) =
        on_portfolio-Runs dt has id (transact_asset t) known (transact_asset-Keeps t) works b v in
      (
        ground (arith, priced.known order, rounded, found, returns),
        ground (arith, priced.known order, rounded, found, ready),
      )

  execute_orders-Runs :
      (ts : List (Ticket F))
      → AreKnown dt has ts
      → Runs (IsReady dt has) (execute_orders market dt ts)
  unfolding execute_orders
  execute_orders-Runs [] known b v = (refl, v)
  execute_orders-Runs ((id, order) ∷ ts) known b v =
      Runs-bind (IsReady dt has) (execute_order market dt id order)
        (λ _. execute_orders market dt ts) (execute_order-Runs id order known.0)
        (λ _. execute_orders-Runs ts known.1) b v

  mark-Works :
      (asset : String)
      → Works {F = F} dt
          (update_market_value_of_asset asset (market.get_asset_latest_mid_price dt asset) dt)
  mark-Works asset p filed timely =
      let (above, positive) = priced.mid asset in
      update_market_value_returns asset (market.get_asset_latest_mid_price dt asset) dt p timely
        above positive

  mark_symbols-Runs :
      (id : String) (assets : List String)
      → has id ≡ true
      → Runs (IsReady dt has) (mark_symbols market dt id assets)
  unfolding mark_symbols
  mark_symbols-Runs id [] known b v = (refl, v)
  mark_symbols-Runs id (asset ∷ assets) known b v =
      let price = market.get_asset_latest_mid_price dt asset in
      let f = update_market_value_of_asset asset price dt in
      Runs-bind (IsReady dt has) (on_portfolio id f) (λ _. mark_symbols market dt id assets)
        (on_portfolio-Runs dt has id f known (mark-Keeps asset price dt) (mark-Works asset))
        (λ _. mark_symbols-Runs id assets known) b v

  mark_portfolios-Runs :
      (ids : List String)
      → All (λ (id : String). has id ≡ true) ids
      → Runs (IsReady dt has) (mark_portfolios market dt ids)
  unfolding mark_portfolios
  mark_portfolios-Runs [] known b v = (refl, v)
  mark_portfolios-Runs (id ∷ ids) known b v =
      let (p, found) = found_in dt has id b v known.0 in
      rw (found, symbols_of)
        (Runs-bind (IsReady dt has) (mark_symbols market dt id (keys p.positions))
          (λ _. mark_portfolios market dt ids) (mark_symbols-Runs id (keys p.positions) known.0)
          (λ _. mark_portfolios-Runs ids known.1) b v)

  sells_all :
      (out : Result (List (Ticket F)) × Broker F)
      → Took dt has out
      → let (r, b) =
          continue
            (λ (orders : List (Ticket F)). execute_orders market dt (sort_orders orders))
            out in
        (is_ok r ≡ true) × IsReady dt has b
  sells_all (ok ts, b) (known, v) =
      execute_orders-Runs (sort_orders ts) (AreKnown-sort_orders dt has ts known) b v
  sells_all (err e, b) nothing = absurd nothing

  trade_when_open-Runs :
      (b : Broker F)
      → All (λ (id : String). has id ≡ true) (keys b.portfolios)
      → IsReady dt has b
      → let (r, b') = trade_when_open market dt b in (is_ok r ≡ true) × IsReady dt has b'
  unfolding trade_when_open trade
  trade_when_open-Runs b known v = elim (Bool-cases (market.is_open_at_datetime dt)) [
    | inl open_now ↦ rw open_now (
        sells_all (take_orders (keys b.portfolios) b)
          (take_orders-Took dt has (keys b.portfolios) b known v))
    | inr shut ↦ rw shut (refl, v)
  ]

All-listed :
    (has : String → Bool) (ids : List String)
    → ((id : String) → listed id ids ≡ true → has id ≡ true)
    → All (λ (id : String). has id ≡ true) ids
unfolding listed
All-listed has [] h = tt
All-listed has (id ∷ ids) h =
    (h id (ground (arith, =ₛ_refl id)), All-listed has ids (λ k m. h k (ground (arith, m))))

module _ {F : Floats} (dt : ℕ) (has : String → Bool) where
  keys_known :
      (b : Broker F) → IsReady dt has b → All (λ (id : String). has id ≡ true) (keys b.portfolios)
  keys_known b v =
      All-listed has (keys b.portfolios)
        (λ id m. ground (arith, m, listed-keys b.portfolios id, v.domain id))

module _ {F : Floats} where
  Conserves-holding :
      (open_now : Bool) (b b' : Broker F)
      → Conserves open_now b b'
      → (id j : String)
      → holding b' id j ≡ (if open_now then holding b id j +ℤ waiting b id j else holding b id j)
  Conserves-holding true b b' v id j =
      ground (arith, v.queues id, v.shares id j, +ℤ_zero (holding b' id j))
  Conserves-holding false b b' v id j = ground (
    arith,
    v.queues id,
    v.shares id j,
    cancelled (holding b id j) (holding b' id j) (waiting b id j),
  )

-- At a broker of sound shape none of whose portfolios and positions is later than the new time,
-- with a price above zero for every asset then, `update` returns. The clock then shows the new
-- time, the portfolios are the same ones, and none is later than it. If the exchange is open then,
-- all queues are empty and every portfolio holds of every asset as much more as its queue had on
-- order; if it is closed, then the queues and the holdings are as they were.
pub update_returns :
    {F : Floats} (market : Market F) (dt : ℕ) (b : Broker F)
    → IsPriced market dt
    → IsSound b
    → ((id : String) (p : Portfolio F) → get b.portfolios id ≡ some p → IsTimely p dt)
    → let (r, b') = update market dt b in
      let open_now = market.is_open_at_datetime dt in
      (is_ok r ≡ true)
      × IsReady dt (contains b.portfolios) b'
      × ((id : String) → queue_of b' id ≡ (if open_now then [] else queue_of b id))
      × ((id j : String)
          → holding b' id j
            ≡ (if open_now then holding b id j +ℤ waiting b id j else holding b id j))
unfolding update
update_returns market dt b priced v timely =
    let has = contains b.portfolios in
    let now : Broker _ = record b { current_dt = dt } in
    let ready : IsReady dt has now = record {
      sound = record { account = v.account; paired = v.paired; filed = v.filed; named = v.named };
      clock = refl;
      timely = timely;
      domain = λ id. refl;
    } in
    let (returns, after) =
      Runs-bind (IsReady dt has) (mark_portfolios market dt (keys b.portfolios))
        (λ _. trade_when_open market dt)
        (mark_portfolios-Runs market dt priced has (keys b.portfolios)
          (keys_known dt has now ready))
        (λ _ c w. trade_when_open-Runs market dt priced has c (keys_known dt has c w) w) now
        ready in
    let moves = update-Conserves market dt b v returns in
    (returns, after, moves.queues, Conserves-holding (market.is_open_at_datetime dt) b _ moves)
