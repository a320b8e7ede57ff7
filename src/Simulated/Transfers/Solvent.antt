-- ===== src/Simulated/Transfers/Solvent.antt =====
-- No transfer overdraws the account or a portfolio.
use vm_quant_trader.Prelude.{
  ◌≡◌, String, Bool, true, false, Option, some, arith, if◌then◌else◌, =ₛ_iff, Option-cases, inl,
  inr,
}
use vm_quant_trader.Prelude.Int.{ℤ, pos, ◌+ℤ◌, ◌-ℤ◌, ◌≤ℤ◌, ltb_ℤ, int_laws, +ℤ_zero}
use vm_quant_trader.Errors.{is_ok}
use vm_quant_trader.Floats.{Floats}
use vm_quant_trader.Floats.Whole.{whole}
use vm_quant_trader.Dict.{get, get_or, contains}
use vm_quant_trader.Dict.Laws.{get-put}
use vm_quant_trader.Order.{Order}
use vm_quant_trader.Portfolio.{Portfolio, new_portfolio, subscribe_funds, withdraw_funds}
use vm_quant_trader.Simulated.Market.{Market}
use vm_quant_trader.Simulated.Broker.{
  Broker, create_portfolio, subscribe_funds_to_account, withdraw_funds_from_account,
  subscribe_funds_to_portfolio, withdraw_funds_from_portfolio,
}
use vm_quant_trader.Simulated.Update.{submit_order}
use vm_quant_trader.Simulated.Sound.{IsSound}
use vm_quant_trader.Simulated.Sound.Calls.{
  Call, deposit, withdraw, create, fund, release, submit, tick, step,
}
use vm_quant_trader.Simulated.Transfers.{
  account_cash, money, cash-subscribe_funds, cash-withdraw_funds, money-fund, money-release,
  money-deposit, money-withdraw, money-create,
}

-- Neither the account nor a portfolio owes money.
pub record IsSolvent (b : Broker whole) : Type 0 where
  pub account : pos 0 ≤ℤ account_cash b
  pub each : (id : String) (p : Portfolio whole) → get b.portfolios id ≡ some p → pos 0 ≤ℤ p.cash

still_positive : (c x : ℤ) → ltb_ℤ c x ≡ false → pos 0 ≤ℤ c -ℤ x
unfolding ◌-ℤ◌
still_positive c x h = ground (arith, h)

more_positive : (c x : ℤ) → pos 0 ≤ℤ c → ltb_ℤ x (pos 0) ≡ false → pos 0 ≤ℤ c +ℤ x
unfolding ◌+ℤ◌
more_positive c x h k = ground (arith, h, k)

deposit-IsSolvent :
    (x : ℤ) (b : Broker whole) → IsSolvent b → IsSolvent (subscribe_funds_to_account x b).1
unfolding subscribe_funds_to_account get_or
deposit-IsSolvent x b v = elim (Option-cases (get b.cash_balances b.base_currency)) [
  | inl e ↦ ground (arith, e, v)
  | inr (c, e) ↦ record {
    account = ground (
      arith,
      e,
      v.account,
      get-put b.cash_balances b.base_currency b.base_currency (c +ℤ x),
      =ₛ_iff b.base_currency b.base_currency,
      more_positive c x,
    );
    each = λ id p g. ground (arith, e, g, v.each id p);
  }
]

withdraw-IsSolvent :
    (x : ℤ) (b : Broker whole) → IsSolvent b → IsSolvent (withdraw_funds_from_account x b).1
unfolding withdraw_funds_from_account get_or
withdraw-IsSolvent x b v = elim (Option-cases (get b.cash_balances b.base_currency)) [
  | inl e ↦ ground (arith, e, v)
  | inr (c, e) ↦ record {
    account = ground (
      arith,
      e,
      v.account,
      get-put b.cash_balances b.base_currency b.base_currency (c -ℤ x),
      =ₛ_iff b.base_currency b.base_currency,
      still_positive c x,
    );
    each = λ id p g. ground (arith, e, g, v.each id p);
  }
]

fund-IsSolvent :
    (id : String) (x : ℤ) (b : Broker whole)
    → IsSolvent b
    → IsSolvent (subscribe_funds_to_portfolio id x b).1
unfolding subscribe_funds_to_portfolio get_or
fund-IsSolvent id x b v = elim (Option-cases (get b.cash_balances b.base_currency)) [
  | inl e ↦ ground (arith, e, v)
  | inr (c, e) ↦ elim (Option-cases (get b.portfolios id)) [
    | inl missing ↦ ground (arith, e, missing, v)
    | inr (p, found) ↦
        let (r, q) = subscribe_funds b.current_dt x p in
        record {
          account = ground (
            arith,
            e,
            found,
            v.account,
            get-put b.cash_balances b.base_currency b.base_currency (c -ℤ x),
            =ₛ_iff b.base_currency b.base_currency,
            still_positive c x,
          );
          each = λ k p' g. ground (
            arith,
            e,
            found,
            g,
            v.each k p',
            v.each id p found,
            get-put b.portfolios id k q,
            cash-subscribe_funds b.current_dt x p,
            more_positive p.cash x,
          );
        }
  ]
]

release-IsSolvent :
    (id : String) (x : ℤ) (b : Broker whole)
    → contains b.cash_balances b.base_currency ≡ true
    → IsSolvent b
    → IsSolvent (withdraw_funds_from_portfolio id x b).1
unfolding withdraw_funds_from_portfolio get_or contains
release-IsSolvent id x b account v = elim (Option-cases (get b.cash_balances b.base_currency)) [
  | inl e ↦ ground (arith, e, account)
  | inr (c, e) ↦ elim (Option-cases (get b.portfolios id)) [
    | inl missing ↦ ground (arith, e, missing, v)
    | inr (p, found) ↦
        let (r, q) = withdraw_funds b.current_dt x p in
        record {
          account = ground (
            arith,
            e,
            found,
            v.account,
            get-put b.cash_balances b.base_currency b.base_currency (c +ℤ x),
            =ₛ_iff b.base_currency b.base_currency,
            more_positive c x,
          );
          each = λ k p' g. ground (
            arith,
            e,
            found,
            g,
            v.each k p',
            v.each id p found,
            get-put b.portfolios id k q,
            cash-withdraw_funds b.current_dt x p,
            still_positive p.cash x,
          );
        }
  ]
]

create-IsSolvent :
    (id : String) (name : Option String) (b : Broker whole)
    → IsSolvent b
    → IsSolvent (create_portfolio id name b).1
unfolding create_portfolio contains new_portfolio
create-IsSolvent id name b v =
    let p = new_portfolio whole b.current_dt (pos 0) b.base_currency id name in
    elim (Option-cases (get b.portfolios id)) [
      | inr (q, e) ↦ ground (arith, e, v)
      | inl e ↦ record {
        account = ground (arith, e, v.account);
        each = λ k q g. ground (arith, e, g, v.each k q, get-put b.portfolios id k p);
      }
    ]

submit-IsSolvent :
    (id : String) (order : Order whole) (b : Broker whole)
    → IsSolvent b
    → (money (submit_order id order b).1 ≡ money b) × IsSolvent (submit_order id order b).1
unfolding submit_order
submit-IsSolvent id order b v = (
  ground arith,
  record { account = ground (arith, v.account); each = λ k q g. ground (arith, g, v.each k q) },
)

-- What a call pays into the broker from outside, when it returns.
abbrev pub inflow : Call whole → ℤ
inflow (deposit x) = x
inflow (withdraw x) = pos 0 -ℤ x
inflow (create id name) = pos 0
inflow (fund id x) = pos 0
inflow (release id x) = pos 0
inflow (submit id order) = pos 0
inflow (tick dt) = pos 0

abbrev pub is_tick : {F : Floats} → Call F → Bool
is_tick (tick dt) = true
is_tick _ = false

minus : (m x : ℤ) → m +ℤ (pos 0 -ℤ x) ≡ m -ℤ x
minus m x = omega int_laws

internal : (returns : Bool) (m n : ℤ) → n ≡ m → n ≡ (if returns then m +ℤ pos 0 else m)
internal returns m n h = ground (arith, h, +ℤ_zero m)

-- In whole units, at a broker of sound shape that owes no money anywhere, a call other than
-- `update` changes the money at the broker, the account's and the portfolios' together, by what it
-- pays in or out when it returns and by nothing when it raises or only moves money inside; and
-- afterwards neither the account nor a portfolio owes money.
pub money-step :
    (market : Market whole) (c : Call whole) (b : Broker whole)
    → is_tick c ≡ false
    → IsSound b
    → IsSolvent b
    → let (r, b') = step market c b in
      (money b' ≡ (if is_ok r then money b +ℤ inflow c else money b)) × IsSolvent b'
unfolding step
money-step market (deposit x) b h s v = (money-deposit x b s.account, deposit-IsSolvent x b v)
money-step market (withdraw x) b h s v =
    (ground (arith, minus (money b) x, money-withdraw x b s.account), withdraw-IsSolvent x b v)
money-step market (create id name) b h s v =
    (internal _ _ _ (money-create id name b), create-IsSolvent id name b v)
money-step market (fund id x) b h s v =
    (internal _ _ _ (money-fund id x b s.account), fund-IsSolvent id x b v)
money-step market (release id x) b h s v =
    (internal _ _ _ (money-release id x b s.account), release-IsSolvent id x b s.account v)
money-step market (submit id order) b h s v =
    let (same, solvent) = submit-IsSolvent id order b v in (internal _ _ _ same, solvent)
money-step market (tick dt) b h s v = cc
