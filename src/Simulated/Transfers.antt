-- ===== src/Simulated/Transfers.antt =====
-- The money at the simulated broker, in whole units: what transfers do to it.
pub mod Solvent
use vm_quant_trader.Prelude.{
  ℕ, ◌≡◌, refl, String, Bool, true, false, Option, none, some, List, [], ◌∷◌, arith, if◌then◌else◌,
  =ₛ_iff, Option-cases, Bool-cases, inl, inr, ◌=ₛ◌, ap,
}
use vm_quant_trader.Prelude.Int.{
  ℤ, pos, neg, pos_part, neg_part, ◌+ℤ◌, ◌-ℤ◌, ◌≤ℤ◌, ltb_ℤ, int_laws, +ℤ_zero,
}
use vm_quant_trader.Errors.{Result, ok, err, Method, is_ok}
use vm_quant_trader.Floats.{Floats, zero_num}
use vm_quant_trader.Floats.Whole.{whole}
use vm_quant_trader.Dict.{Dict, get, get_or, put, contains}
use vm_quant_trader.Dict.Laws.{get-put, get_or-put}
use vm_quant_trader.Portfolio.{Portfolio, new_portfolio, subscribe_funds, withdraw_funds}
use vm_quant_trader.Simulated.Broker.{
  Broker, base_cash, the_portfolio, on_portfolio, pay_in, pay_out, set_base_cash, create_portfolio,
  subscribe_funds_to_account, withdraw_funds_from_account, subscribe_funds_to_portfolio,
  withdraw_funds_from_portfolio,
}
use vm_quant_trader.Simulated.Sound.{IsSound}

module _ {F : Floats} where
  pub cash-subscribe_funds :
      (dt : ℕ) (x : F.Num) (p : Portfolio F)
      → let (r, q) = subscribe_funds dt x p in q.cash ≡ (if is_ok r then F.add p.cash x else p.cash)
  unfolding subscribe_funds
  cash-subscribe_funds dt x p = ground arith

  pub cash-withdraw_funds :
      (dt : ℕ) (x : F.Num) (p : Portfolio F)
      → let (r, q) = withdraw_funds dt x p in q.cash ≡ (if is_ok r then F.sub p.cash x else p.cash)
  unfolding withdraw_funds
  cash-withdraw_funds dt x p = ground arith

-- The cash of all portfolios.
abbrev pub invested : Dict (Portfolio whole) → ℤ
invested [] = pos 0
invested ((id, p) ∷ d) = p.cash +ℤ invested d

-- The cash of the account, in its base currency.
abbrev pub account_cash : Broker whole → ℤ
account_cash b = get_or b.cash_balances b.base_currency (pos 0)

-- All the money at the broker.
abbrev pub money : Broker whole → ℤ
money b = account_cash b +ℤ invested b.portfolios

abbrev cash_at : Dict (Portfolio whole) → String → ℤ
unfolding get
cash_at d id = elim (get d id) [ none ↦ pos 0 | some p ↦ p.cash ]

swap_ends : (a b c : ℤ) → a +ℤ b +ℤ c ≡ c +ℤ b +ℤ a
swap_ends a b c = omega int_laws

under_same : (p t' old t q : ℤ) → t' +ℤ old ≡ t +ℤ q → p +ℤ t' +ℤ old ≡ p +ℤ t +ℤ q
under_same p t' old t q h = omega (int_laws, ap pos_part h, ap neg_part h)

invested-put :
    (d : Dict (Portfolio whole)) (id : String) (q : Portfolio whole)
    → invested (put d id q) +ℤ cash_at d id ≡ invested d +ℤ q.cash
unfolding put get cash_at
invested-put [] id q = omega int_laws
invested-put ((j, p) ∷ d) id q = ground (
  arith,
  swap_ends q.cash (invested d) p.cash,
  under_same p.cash (invested (put d id q)) (cash_at d id) (invested d) q.cash
      (invested-put d id q),
)

-- Moving an amount between the account and a portfolio.
paid_in : (c t t' old x : ℤ) → t' +ℤ old ≡ t +ℤ (old +ℤ x) → (c -ℤ x) +ℤ t' ≡ c +ℤ t
paid_in c t t' old x h = omega (int_laws, ap pos_part h, ap neg_part h)

paid_out : (c t t' old x : ℤ) → t' +ℤ old ≡ t +ℤ (old -ℤ x) → (c +ℤ x) +ℤ t' ≡ c +ℤ t
paid_out c t t' old x h = omega (int_laws, ap pos_part h, ap neg_part h)

unpaid : (c t t' old : ℤ) → t' +ℤ old ≡ t +ℤ old → c +ℤ t' ≡ c +ℤ t
unpaid c t t' old h = omega (int_laws, ap pos_part h, ap neg_part h)

pub money-fund :
    (id : String) (x : ℤ) (b : Broker whole)
    → contains b.cash_balances b.base_currency ≡ true
    → money (subscribe_funds_to_portfolio id x b).1 ≡ money b
unfolding subscribe_funds_to_portfolio contains get_or
money-fund id x b account = elim (Option-cases (get b.cash_balances b.base_currency)) [
  | inl e ↦ ground (arith, e, account)
  | inr (c, e) ↦ elim (Option-cases (get b.portfolios id)) [
    | inl missing ↦ ground (arith, e, missing)
    | inr (p, found) ↦
        let (r, q) = subscribe_funds b.current_dt x p in
        let wrote = invested-put b.portfolios id q in
        ground (
          arith,
          account,
          e,
          found,
          cash-subscribe_funds b.current_dt x p,
          wrote,
          get-put b.cash_balances b.base_currency b.base_currency (c -ℤ x),
          =ₛ_iff b.base_currency b.base_currency,
          paid_in c (invested b.portfolios) (invested (put b.portfolios id q)) p.cash x,
          unpaid c (invested b.portfolios) (invested (put b.portfolios id q)) p.cash,
        )
  ]
]

pub money-release :
    (id : String) (x : ℤ) (b : Broker whole)
    → contains b.cash_balances b.base_currency ≡ true
    → money (withdraw_funds_from_portfolio id x b).1 ≡ money b
unfolding withdraw_funds_from_portfolio contains get_or
money-release id x b account = elim (Option-cases (get b.cash_balances b.base_currency)) [
  | inl e ↦ ground (arith, e, account)
  | inr (c, e) ↦ elim (Option-cases (get b.portfolios id)) [
    | inl missing ↦ ground (arith, e, missing)
    | inr (p, found) ↦
        let (r, q) = withdraw_funds b.current_dt x p in
        ground (
          arith,
          account,
          e,
          found,
          cash-withdraw_funds b.current_dt x p,
          invested-put b.portfolios id q,
          get-put b.cash_balances b.base_currency b.base_currency (c +ℤ x),
          =ₛ_iff b.base_currency b.base_currency,
          paid_out c (invested b.portfolios) (invested (put b.portfolios id q)) p.cash x,
          unpaid c (invested b.portfolios) (invested (put b.portfolios id q)) p.cash,
        )
  ]
]

deposited : (c t x : ℤ) → (c +ℤ x) +ℤ t ≡ (c +ℤ t) +ℤ x
deposited c t x = omega int_laws

withdrawn : (c t x : ℤ) → (c -ℤ x) +ℤ t ≡ (c +ℤ t) -ℤ x
withdrawn c t x = omega int_laws

pub money-deposit :
    (x : ℤ) (b : Broker whole)
    → contains b.cash_balances b.base_currency ≡ true
    → let (r, b') = subscribe_funds_to_account x b in
      money b' ≡ (if is_ok r then money b +ℤ x else money b)
unfolding subscribe_funds_to_account contains get_or
money-deposit x b account = elim (Option-cases (get b.cash_balances b.base_currency)) [
  | inl e ↦ ground (arith, e, account)
  | inr (c, e) ↦ ground (
    arith,
    e,
    get-put b.cash_balances b.base_currency b.base_currency (c +ℤ x),
    =ₛ_iff b.base_currency b.base_currency,
    deposited c (invested b.portfolios) x,
  )
]

pub money-withdraw :
    (x : ℤ) (b : Broker whole)
    → contains b.cash_balances b.base_currency ≡ true
    → let (r, b') = withdraw_funds_from_account x b in
      money b' ≡ (if is_ok r then money b -ℤ x else money b)
unfolding withdraw_funds_from_account contains get_or
money-withdraw x b account = elim (Option-cases (get b.cash_balances b.base_currency)) [
  | inl e ↦ ground (arith, e, account)
  | inr (c, e) ↦ ground (
    arith,
    e,
    get-put b.cash_balances b.base_currency b.base_currency (c -ℤ x),
    =ₛ_iff b.base_currency b.base_currency,
    withdrawn c (invested b.portfolios) x,
  )
]

opened : (c t t' : ℤ) → t' +ℤ pos 0 ≡ t +ℤ pos 0 → c +ℤ t' ≡ c +ℤ t
opened c t t' h = omega (int_laws, ap pos_part h, ap neg_part h)

pub money-create :
    (id : String) (name : Option String) (b : Broker whole)
    → money (create_portfolio id name b).1 ≡ money b
unfolding create_portfolio contains new_portfolio
money-create id name b =
    let p = new_portfolio whole b.current_dt (pos 0) b.base_currency id name in
    elim (Option-cases (get b.portfolios id)) [
      | inr (q, e) ↦ ground (arith, e)
      | inl e ↦ ground (
        arith,
        e,
        invested-put b.portfolios id p,
        opened (account_cash b) (invested b.portfolios) (invested (put b.portfolios id p)),
      )
    ]
