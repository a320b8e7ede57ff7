-- ===== src/Rebalance/Targets.antt =====
-- A rebalance from beginning to end: afterwards the portfolio holds its target.
use vm_quant_trader.Prelude.{
  ℕ, ◌≡◌, refl, ◌∙◌, sym, String, Bool, true, false, none, some, List, [], ◌∷◌, arith, ◌=ₛ◌,
}
use vm_quant_trader.Prelude.Int.{ℤ, pos}
use vm_quant_trader.Errors.{Result, ok, err, is_ok, continue, pure, ◌>>=◌}
use vm_quant_trader.Floats.{Floats, zero_num}
use vm_quant_trader.Dict.{Dict, get, get_or, contains, keys}
use vm_quant_trader.Dict.Laws.{HasUniqueKeys}
use vm_quant_trader.Order.{Order}
use vm_quant_trader.PositionHandler.Holdings.{held}
use vm_quant_trader.Messaging.Events.{TargetWeights, as_dict}
use vm_quant_trader.Portfolio.{Portfolio, HoldingRow, portfolio_to_dict, row_of}
use vm_quant_trader.Portfolio.Trades.{get-portfolio_to_dict}
use vm_quant_trader.Simulated.Market.{Market}
use vm_quant_trader.Simulated.Broker.{Broker, get_portfolio_as_dict}
use vm_quant_trader.Simulated.Update.Shares.{holding}
use vm_quant_trader.Simulated.Update.Conserves.{listed-keys}
use vm_quant_trader.Simulated.Update.Returns.{IsPriced}
use vm_quant_trader.Rebalance.Weights.{Universe, get_assets, from_assets}
use vm_quant_trader.Rebalance.Sizer.{OrderSizer, size, quantities}
use vm_quant_trader.Rebalance.Orders.{
  sorted_set, updated, generate_rebalance_orders, full_weights, build_orders,
}
use vm_quant_trader.Rebalance.System.{submit_all, size_and_submit}
use vm_quant_trader.Rebalance.Covered.{contains-from_assets, contains-updated, listed-sorted_set}
use vm_quant_trader.Rebalance.Sized.{size-Sized, of_result-Sized}
use vm_quant_trader.Rebalance.Reach.{generate_rebalance_orders_reach}
use vm_quant_trader.Rebalance.Executed.{IsIdle, Filled, submit_all_fills}

module _ {F : Floats} where
  get_or-quantities :
      (d : Dict (HoldingRow F)) (j : String)
      → get_or (quantities d) j (pos 0) ≡ elim (get d j) [ none ↦ pos 0 | some row ↦ row.quantity ]
  unfolding quantities get_or get
  get_or-quantities [] j = refl
  get_or-quantities ((k, row) ∷ d) j = ground (arith, get_or-quantities d j)

  quantity_held :
      (p : Portfolio F) (j : String)
      → get_or (quantities (portfolio_to_dict p)) j (pos 0) ≡ held p.positions j
  unfolding held row_of
  quantity_held p j =
      ground (arith, get_or-quantities (portfolio_to_dict p) j, get-portfolio_to_dict p j)

  held_unlisted :
      (p : Portfolio F) (j : String)
      → contains (portfolio_to_dict p) j ≡ false
      → held p.positions j ≡ pos 0
  unfolding held contains
  held_unlisted p j h = ground (arith, h, get-portfolio_to_dict p j)

module _ {F : Floats} (universe : Universe) (id : String) (dt : ℕ) (weights : Dict F.Num) where
  -- The weights that the sizer is given, for a portfolio.
  abbrev pub weights_for : Portfolio F → Dict F.Num
  weights_for p =
      updated
        (from_assets
          (sorted_set (keys (portfolio_to_dict p)) (sorted_set (get_assets universe dt) []))
          (zero_num F) [])
        weights

  full_weights_for :
      (b : Broker F) (p : Portfolio F)
      → get b.portfolios id ≡ some p
      → full_weights universe id dt weights b ≡ (ok (weights_for p), b)
  unfolding full_weights get_portfolio_as_dict
  full_weights_for b p e = ground (arith, e)

  held-weights_for :
      (p : Portfolio F) (j : String)
      → contains (weights_for p) j ≡ false
      → held p.positions j ≡ pos 0
  held-weights_for p j h =
      let rows = portfolio_to_dict p in
      let named = sorted_set (get_assets universe dt) [] in
      let assets = sorted_set (keys rows) named in
      held_unlisted p j (
        ground (
          arith,
          h,
          contains-updated (from_assets assets (zero_num F) []) weights j,
          contains-from_assets assets (zero_num F) [] j,
          listed-sorted_set (keys rows) named j,
          listed-keys rows j,
        ))

-- What a rebalance leaves.
pub record Rebalanced {F : Floats} (id : String) (dt : ℕ) (target : Dict ℤ) (b b' : Broker F)
    : Type 0 where
  pub reached : (j : String) → holding b' id j ≡ get_or target j (pos 0)
  pub others : (k j : String) → (id =ₛ k) ≡ false → holding b' k j ≡ holding b k j
  pub idle : (has : String → Bool) × IsIdle dt has b'

module _ {F : Floats} (market : Market F) (sizer : OrderSizer F) (universe : Universe)
    (ids : String → String) (id : String) where
  -- The orders of a rebalance of the portfolio, from its target.
  abbrev pub orders_for : ℕ → Portfolio F → Dict ℤ → List (Order F)
  orders_for dt p target =
      generate_rebalance_orders ids dt target (quantities (portfolio_to_dict p))

  after_sizing :
      (dt : ℕ) (p : Portfolio F) (b : Broker F) (target : Dict ℤ) (out : Result (Dict ℤ) × Broker F)
      → get b.portfolios id ≡ some p
      → out.0 ≡ ok target
      → out.1 ≡ b
      → continue
          (λ (target : Dict ℤ). get_portfolio_as_dict id >>= λ (current : Dict (HoldingRow F)).
            pure (generate_rebalance_orders {F = F} ids dt target (quantities current)))
          out
        ≡ (ok (orders_for dt p target), b)
  unfolding get_portfolio_as_dict
  after_sizing dt p b target (ok t, c) found e same = ground (arith, found, e, same)
  after_sizing dt p b target (err x, c) found e same = cc

  build_orders_for :
      (dt : ℕ) (weights : Dict F.Num) (b : Broker F) (p : Portfolio F) (target : Dict ℤ)
      → get b.portfolios id ≡ some p
      → (size market sizer dt id (weights_for universe id dt weights p) b).0 ≡ ok target
      → (size market sizer dt id (weights_for universe id dt weights p) b).1 ≡ b
      → build_orders market sizer universe ids id dt weights b ≡ (ok (orders_for dt p target), b)
  unfolding build_orders
  build_orders_for dt weights b p target found sized same =
      rw (full_weights_for universe id dt weights b p found) (
        after_sizing dt p b target
          (size market sizer dt id (weights_for universe id dt weights p) b) found sized same)

  -- The target that the sizer gives for a portfolio, and what it is known for.
  record Aims (dt : ℕ) (weights : Dict F.Num) (p : Portfolio F) (b : Broker F) (target : Dict ℤ)
      : Type 0 where
    same : (size market sizer dt id (weights_for universe id dt weights p) b).1 ≡ b
    unique : HasUniqueKeys target
    covers : (j : String) → contains target j ≡ false → held p.positions j ≡ pos 0

  weights_for-Aims :
      (dt : ℕ) (weights : Dict F.Num) (p : Portfolio F) (b : Broker F) (target : Dict ℤ)
      → (size market sizer dt id (weights_for universe id dt weights p) b).0 ≡ ok target
      → Aims dt weights p b target
  weights_for-Aims dt weights p b target e =
      let full = weights_for universe id dt weights p in
      let sized =
        of_result-Sized market sizer dt (contains full) b target (size market sizer dt id full b)
          (size-Sized market sizer dt id full b) e in
      record {
        same = sized.same;
        unique = sized.unique;
        covers =
            λ j absent. held-weights_for universe id dt weights p j (sym (sized.assets j) ∙ absent);
      }

  holding_found :
      (b : Broker F) (p : Portfolio F) (j : String)
      → get b.portfolios id ≡ some p
      → holding b id j ≡ held p.positions j
  unfolding get
  holding_found b p j e = ground (arith, e)

  get_or_absent :
      (target : Dict ℤ) (j : String) → contains target j ≡ false → get_or target j (pos 0) ≡ pos 0
  unfolding get_or contains
  get_or_absent target j h = ground (arith, h)

  rebalanced :
      (dt : ℕ) (p : Portfolio F) (b b' : Broker F) (target : Dict ℤ) (has : String → Bool)
      → get b.portfolios id ≡ some p
      → HasUniqueKeys target
      → ((j : String) → contains target j ≡ false → held p.positions j ≡ pos 0)
      → IsIdle dt has b'
      → Filled id (orders_for dt p target) b b'
      → Rebalanced id dt target b b'
  rebalanced dt p b b' target has found unique covers idle filled =
      let (reach, trades) =
        generate_rebalance_orders_reach F ids dt target (quantities (portfolio_to_dict p)) unique in
      record {
        reached = λ j. ground (
          arith,
          filled.own j,
          reach j,
          quantity_held p j,
          holding_found b p j found,
          get_or_absent target j,
          covers j,
        );
        others = filled.others;
        idle = (has, idle);
      }

  -- At a simulated broker with nothing on order and no portfolio later than the command, whose
  -- exchange is open then and has a price above zero for every asset: once the sizer gives a target
  -- for the command's weights, completed by zero for everything held, a rebalance with order
  -- submission returns, and the portfolio holds of every asset exactly what the target says, so
  -- nothing of an asset that it does not name; no other portfolio's holdings move, and again
  -- nothing is on order.
  pub size_and_submit_reaches :
      (command : TargetWeights F) (b : Broker F) (p : Portfolio F) (target : Dict ℤ)
      (has : String → Bool)
      → IsPriced market command.dt
      → market.is_open_at_datetime command.dt ≡ true
      → IsIdle command.dt has b
      → get b.portfolios id ≡ some p
      → (size market sizer command.dt id
          (weights_for universe id command.dt (as_dict command) p)
          b).0
        ≡ ok target
      → let (r, b') = size_and_submit market sizer universe ids id true command b in
        (is_ok r ≡ true) × Rebalanced id command.dt target b b'
  unfolding size_and_submit contains
  size_and_submit_reaches command b p target has priced opened idle found sized =
      let dt = command.dt in
      let aims = weights_for-Aims dt (as_dict command) p b target sized in
      let known : has id ≡ true = sym (idle.ready.domain id) ∙ ground (arith, found) in
      let (returns, after, filled) =
        submit_all_fills market dt priced opened has id known (orders_for dt p target) b idle in
      rw (build_orders_for dt (as_dict command) b p target found sized aims.same) (
        returns,
        rebalanced dt p b (submit_all market id dt (orders_for dt p target) b).1 target has found
            aims.unique aims.covers after filled,
      )
