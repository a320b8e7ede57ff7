-- ===== src/Simulated/Sound.antt =====
-- The shape of the simulated broker that every call keeps: a queue for each portfolio, the
-- portfolios under their own names with their positions filed, and an account in the base currency.
pub mod Transfers
pub mod Updates
pub mod Calls
use vm_quant_trader.Prelude.{
  ℕ, ◌≡◌, refl, String, Bool, true, false, Option, none, some, List, [], ◌∷◌, arith, ltb,
  if◌then◌else◌, =ₛ_iff, Option-cases, Bool-cases, inl, inr, ◌∙◌,
}
use vm_quant_trader.Errors.{Result, ok, err, Method, is_ok, ◌>>=◌, raise_if, pure, gets, modify}
use vm_quant_trader.Errors.Frame.{IsFrame, Respects, Respects-bind}
use vm_quant_trader.Floats.{Floats, zero_num}
use vm_quant_trader.Dict.{Dict, get, put, contains}
use vm_quant_trader.Dict.Laws.{get-put}
use vm_quant_trader.Position.{Position, update_current_price}
use vm_quant_trader.PositionHandler.Holdings.{IsFiled, put-IsFiled, empty-IsFiled}
use vm_quant_trader.Transaction.{Transaction}
use vm_quant_trader.Order.{Order}
use vm_quant_trader.Portfolio.{
  Portfolio, new_portfolio, subscribe_funds, withdraw_funds, transact_asset,
  update_market_value_of_asset,
}
use vm_quant_trader.Portfolio.Trades.{transact_asset-Traded}
use vm_quant_trader.Simulated.Broker.{Broker, on_portfolio}

-- What the methods of a portfolio keep of it.
pub record Keeps {F : Floats} (p q : Portfolio F) : Type 0 where
  pub filed : IsFiled p.positions → IsFiled q.positions
  pub name : q.portfolio_id ≡ p.portfolio_id

pub record IsSound {F : Floats} (b : Broker F) : Type 0 where
  pub account : contains b.cash_balances b.base_currency ≡ true
  pub paired : (id : String) → contains b.open_orders id ≡ contains b.portfolios id
  pub filed : (id : String) (p : Portfolio F) → get b.portfolios id ≡ some p → IsFiled p.positions
  pub named : (id : String) (p : Portfolio F) → get b.portfolios id ≡ some p → p.portfolio_id ≡ id

module _ {F : Floats} where
  pub subscribe_funds-Keeps : (dt : ℕ) (x : F.Num) → Respects Keeps (subscribe_funds {F = F} dt x)
  unfolding subscribe_funds
  subscribe_funds-Keeps dt x p = record { filed = λ v. ground (arith, v); name = ground arith }

  pub withdraw_funds-Keeps : (dt : ℕ) (x : F.Num) → Respects Keeps (withdraw_funds {F = F} dt x)
  unfolding withdraw_funds
  withdraw_funds-Keeps dt x p = record { filed = λ v. ground (arith, v); name = ground arith }

  name-transact_asset :
      (t : Transaction F) (p : Portfolio F) → (transact_asset t p).1.portfolio_id ≡ p.portfolio_id
  unfolding transact_asset
  name-transact_asset t p = ground arith

  pub transact_asset-Keeps : (t : Transaction F) → Respects Keeps (transact_asset t)
  transact_asset-Keeps t p = record {
    filed = λ v. (transact_asset-Traded t p v).filed;
    name = name-transact_asset t p;
  }

  asset-update_current_price :
      (x : F.Num) (dt : Option ℕ) (q : Position F) → (update_current_price x dt q).1.asset ≡ q.asset
  unfolding update_current_price
  asset-update_current_price x dt q = ground arith

  pub mark-Keeps :
      (asset : String) (x : F.Num) (dt : ℕ)
      → Respects Keeps (update_market_value_of_asset {F = F} asset x dt)
  unfolding update_market_value_of_asset
  mark-Keeps asset x dt p = elim (Option-cases (get p.positions asset)) [
    | inl e ↦ rw (e, update_market_value_of_asset) (record { filed = λ v. v; name = refl })
    | inr (q, e) ↦ record {
      filed = λ v.
          let wrote =
            put-IsFiled p.positions asset (update_current_price x (some dt) q).1 v
              (asset-update_current_price x (some dt) q ∙ v.filed asset q e) in
          ground (arith, e, v, wrote);
      name = ground (arith, e);
    }
  ]

  -- One call after the other.
  abbrev pub Soundly : Broker F → Broker F → Type 0
  Soundly b c = IsSound b → IsSound c

  pub sound_frame : IsFrame Soundly
  sound_frame = record { same = λ b v. v; next = λ b c d h k v. k (h v) }

  pub on_portfolio-Soundly :
      (id : String) (f : Method (Portfolio F) (Unit {0}))
      → Respects Keeps f
      → Respects Soundly (on_portfolio id f)
  unfolding on_portfolio contains
  on_portfolio-Soundly id f keeps b v = elim (Option-cases (get b.portfolios id)) [
    | inl e ↦ rw (e, on_portfolio) v
    | inr (p, e) ↦
        let (r, p') = f p in
        rw (e, on_portfolio)
          (record {
            account = v.account;
            paired = λ k. ground (arith, e, get-put b.portfolios id k p', =ₛ_iff id k, v.paired k);
            filed = λ k q g. ground (
              arith,
              get-put b.portfolios id k p',
              (keeps p).filed (v.filed id p e),
              v.filed k q,
            );
            named = λ k q g. ground (
              arith,
              get-put b.portfolios id k p',
              =ₛ_iff id k,
              (keeps p).name,
              v.named id p e,
              v.named k q,
            );
          })
  ]
