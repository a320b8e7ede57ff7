-- ===== src/Simulated/Update/Executed.antt =====
-- What `update` does to the shares: each queued order is executed once, and nothing else moves.
use vm_quant_trader.Prelude.{
  ℕ, ◌≡◌, refl, ◌∙◌, String, true, List, [], ◌∷◌, arith, =ₛ_iff, Option-cases, inl, inr, ap,
}
use vm_quant_trader.Prelude.Int.{ℤ, pos, ◌+ℤ◌, int_laws, +ℤ_zero}
use vm_quant_trader.Errors.{Result, is_ok}
use vm_quant_trader.Errors.Frame.{IsFrame, Respects, Respects-bind, continue-Returned}
use vm_quant_trader.Floats.{Floats}
use vm_quant_trader.Dict.{get, keys}
use vm_quant_trader.Dict.Laws.{get-put}
use vm_quant_trader.Order.{Order}
use vm_quant_trader.FeeModel.{calc_total_cost}
use vm_quant_trader.Portfolio.{transact_asset, update_market_value_of_asset}
use vm_quant_trader.Portfolio.Trades.{transact_asset-Traded, transact_asset_timely}
use vm_quant_trader.Portfolio.Marks.{held-update_market_value}
use vm_quant_trader.Simulated.Market.{Market}
use vm_quant_trader.Simulated.Broker.{Broker, the_portfolio, on_portfolio}
use vm_quant_trader.Simulated.Update.{
  Ticket, execution, symbols_of, quoted, consideration, execute_order, execute_orders, mark_symbols,
  mark_portfolios,
}
use vm_quant_trader.Simulated.Update.Shares.{holding, ticketed}
use vm_quant_trader.Simulated.Sound.{IsSound}
use vm_quant_trader.Simulated.Sound.Updates.{execute_order-Keeping}

module _ {F : Floats} where
  -- Neither a queue nor a holding moves.
  pub record SameShares (b b' : Broker F) : Type 0 where
    pub queues : b'.open_orders ≡ b.open_orders
    pub holdings : (id j : String) → holding b' id j ≡ holding b id j

  pub shares_frame : IsFrame SameShares
  shares_frame = record {
    same = λ b. record { queues = refl; holdings = λ id j. refl };
    next = λ b c d h k. record {
      queues = k.queues ∙ h.queues;
      holdings = λ id j. k.holdings id j ∙ h.holdings id j;
    };
  }

  -- What the execution of orders does.
  pub record Moved (ts : List (Ticket F)) (b b' : Broker F) : Type 0 where
    pub queues : b'.open_orders ≡ b.open_orders
    pub holdings : (id j : String) → holding b' id j ≡ holding b id j +ℤ ticketed ts id j

  revalue-SameShares :
      (k asset : String) (price : F.Num) (dt : ℕ)
      → Respects SameShares (on_portfolio k (update_market_value_of_asset {F = F} asset price dt))
  unfolding on_portfolio
  revalue-SameShares k asset price dt b = elim (Option-cases (get b.portfolios k)) [
    | inl e ↦ rw (e, on_portfolio) (shares_frame.same b)
    | inr (p, e) ↦
        let (r, p') = update_market_value_of_asset asset price dt p in
        record {
          queues = ground (arith, e);
          holdings = λ id j. ground (
            arith,
            e,
            get-put b.portfolios k id p',
            =ₛ_iff k id,
            held-update_market_value asset price dt p j,
          );
        }
  ]

one_more : (h q t : ℤ) → h +ℤ (q +ℤ pos 0) +ℤ t ≡ h +ℤ (q +ℤ t)
one_more h q t = omega int_laws

module _ {F : Floats} (market : Market F) where
  mark_symbols-SameShares :
      (dt : ℕ) (id : String) (assets : List String)
      → Respects SameShares (mark_symbols market dt id assets)
  unfolding mark_symbols
  mark_symbols-SameShares dt id [] b = shares_frame.same b
  mark_symbols-SameShares dt id (asset ∷ assets) b =
      let price = market.get_asset_latest_mid_price dt asset in
      Respects-bind SameShares shares_frame
        (on_portfolio id (update_market_value_of_asset asset price dt))
        (λ _. mark_symbols market dt id assets) (revalue-SameShares id asset price dt)
        (λ _. mark_symbols-SameShares dt id assets) b

  pub mark_portfolios-SameShares :
      (dt : ℕ) (ids : List String) → Respects SameShares (mark_portfolios market dt ids)
  unfolding mark_portfolios
  mark_portfolios-SameShares dt [] b = shares_frame.same b
  mark_portfolios-SameShares dt (id ∷ ids) b = elim (Option-cases (get b.portfolios id)) [
    | inl e ↦ rw (e, symbols_of) (shares_frame.same b)
    | inr (p, e) ↦
        rw (e, symbols_of)
          (Respects-bind SameShares shares_frame (mark_symbols market dt id (keys p.positions))
            (λ _. mark_portfolios market dt ids) (mark_symbols-SameShares dt id (keys p.positions))
            (λ _. mark_portfolios-SameShares dt ids) b)
  ]

  execute_order-Moved :
      (dt : ℕ) (id : String) (order : Order F) (b : Broker F)
      → IsSound b
      → is_ok (execute_order market dt id order b).0 ≡ true
      → Moved ((id, order) ∷ []) b (execute_order market dt id order b).1
  unfolding execute_order consideration the_portfolio on_portfolio execution
  execute_order-Moved dt id order b v returns =
      elim (Option-cases (F.round (F.mul (quoted market dt order) (F.of_int order.quantity)))) [
        | inl e ↦ ground (arith, e, returns)
        | inr (n, e) ↦ elim (Option-cases (get b.portfolios id)) [
          | inl missing ↦ ground (arith, e, missing, returns)
          | inr (p, found) ↦
              let fees = calc_total_cost b.fee_model order.asset order.quantity (F.of_int n) in
              let t = execution b.current_dt (quoted market dt order) fees order in
              let effect = transact_asset-Traded t p (v.filed id p found) in
              let took : is_ok (transact_asset t p).0 ≡ true = ground (arith, e, found, returns) in
              let timely = transact_asset_timely t p took in
              record {
                queues = ground (arith, e, found, returns);
                holdings = λ k j. ground (
                  arith,
                  e,
                  found,
                  returns,
                  timely,
                  get-put b.portfolios id k (transact_asset t p).1,
                  =ₛ_iff id k,
                  effect.holdings j,
                  +ℤ_zero (holding b k j),
                  +ℤ_zero order.quantity,
                );
              }
        ]
      ]

  then_Moved :
      (id : String) (order : Order F) (ts : List (Ticket F)) (b c d : Broker F)
      → Moved ((id, order) ∷ []) b c
      → Moved ts c d
      → Moved ((id, order) ∷ ts) b d
  then_Moved id order ts b c d first rest = record {
    queues = rest.queues ∙ first.queues;
    holdings = λ k j. ground (
      arith,
      rest.holdings k j,
      first.holdings k j,
      one_more (holding b k j) order.quantity (ticketed ts k j),
      +ℤ_zero (holding b k j),
    );
  }

  pub execute_orders-Moved :
      (dt : ℕ) (ts : List (Ticket F)) (b : Broker F)
      → IsSound b
      → is_ok (execute_orders market dt ts b).0 ≡ true
      → Moved ts b (execute_orders market dt ts b).1
  unfolding execute_orders
  execute_orders-Moved dt [] b v returns = record {
    queues = refl;
    holdings = λ k j. ground (arith, +ℤ_zero (holding b k j));
  }
  execute_orders-Moved dt ((id, order) ∷ ts) b v returns =
      let out = execute_order market dt id order b in
      let done = continue-Returned (λ _. execute_orders market dt ts) out returns in
      let first =
        execute_order-Moved dt id order b v
          (ap (λ (o : Result (Unit {0}) × Broker F). is_ok o.0) done.first) in
      let rest =
        execute_orders-Moved dt ts out.1 (execute_order-Keeping market dt id order b v)
          done.returns in
      rw done.rest (then_Moved id order ts b out.1 (execute_orders market dt ts out.1).1 first rest)
