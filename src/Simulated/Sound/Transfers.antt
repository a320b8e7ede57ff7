-- ===== src/Simulated/Sound/Transfers.antt =====
-- Every call on the simulated broker keeps its shape.
use vm_quant_trader.Prelude.{
  ℕ, ◌≡◌, String, Option, some, List, [], ◌∷◌, ◌++◌, arith, =ₛ_iff, Option-cases, inl, inr,
}
use vm_quant_trader.Errors.{Method, ◌>>=◌}
use vm_quant_trader.Errors.Frame.{Respects, Respects-bind}
use vm_quant_trader.Floats.{Floats, zero_num}
use vm_quant_trader.Dict.{get, put, contains}
use vm_quant_trader.Dict.Laws.{get-put}
use vm_quant_trader.PositionHandler.Holdings.{IsFiled, empty-IsFiled}
use vm_quant_trader.Order.{Order}
use vm_quant_trader.Portfolio.{new_portfolio, subscribe_funds, withdraw_funds}
use vm_quant_trader.Simulated.Broker.{
  Broker, base_cash, set_base_cash, the_portfolio, on_portfolio, create_portfolio,
  subscribe_funds_to_account, withdraw_funds_from_account, subscribe_funds_to_portfolio,
  withdraw_funds_from_portfolio, pay_in, pay_out,
}
use vm_quant_trader.Simulated.Update.{the_queue, set_queue, submit_order}
use vm_quant_trader.Simulated.Sound.{
  IsSound, Soundly, sound_frame, on_portfolio-Soundly, subscribe_funds-Keeps, withdraw_funds-Keeps,
}

module _ {F : Floats} where
  abbrev pub Keeping : {A : Type 0} → Method (Broker F) A → Type 0
  Keeping m = Respects Soundly m

  pub bind-Keeping :
      {A B : Type 0} (m : Method (Broker F) A) (f : A → Method (Broker F) B)
      → Keeping m
      → ((a : A) → Keeping (f a))
      → Keeping (m >>= f)
  bind-Keeping m f h k = Respects-bind Soundly sound_frame m f h k

  the_portfolio-Keeping : (id : String) → Keeping (the_portfolio id)
  unfolding the_portfolio
  the_portfolio-Keeping id b v = v

  put_cash-IsSound :
      (x : F.Num) (b : Broker F)
      → IsSound b
      → IsSound (record b { cash_balances = put b.cash_balances b.base_currency x })
  unfolding contains
  put_cash-IsSound x b v = record {
    account = ground (
      arith,
      get-put b.cash_balances b.base_currency b.base_currency x,
      =ₛ_iff b.base_currency b.base_currency,
    );
    paired = v.paired;
    filed = v.filed;
    named = v.named;
  }

  pub subscribe_funds_to_account-Keeping : (x : F.Num) → Keeping (subscribe_funds_to_account x)
  unfolding subscribe_funds_to_account
  subscribe_funds_to_account-Keeping x b v =
      elim (Option-cases (get b.cash_balances b.base_currency)) [
        | inl e ↦ ground (arith, e, v)
        | inr (cash, e) ↦ ground (arith, e, v, put_cash-IsSound (F.add cash x) b v)
      ]

  pay_in-Keeping : (id : String) (x cash : F.Num) → Keeping (pay_in id x cash)
  unfolding pay_in set_base_cash
  pay_in-Keeping id x cash =
      bind-Keeping (λ b. on_portfolio id (subscribe_funds b.current_dt x) b)
        (λ _. set_base_cash (F.sub cash x))
        (λ b v.
          on_portfolio-Soundly id (subscribe_funds b.current_dt x)
            (subscribe_funds-Keeps b.current_dt x) b v)
        (λ _ b v. put_cash-IsSound (F.sub cash x) b v)

  pub subscribe_funds_to_portfolio-Keeping :
      (id : String) (x : F.Num) → Keeping (subscribe_funds_to_portfolio id x)
  unfolding subscribe_funds_to_portfolio
  subscribe_funds_to_portfolio-Keeping id x b v =
      elim (Option-cases (get b.cash_balances b.base_currency)) [
        | inl e ↦ ground (arith, e, v)
        | inr (cash, e) ↦ ground (arith, e, v, pay_in-Keeping id x cash b v)
      ]

  pub withdraw_funds_from_account-Keeping : (x : F.Num) → Keeping (withdraw_funds_from_account x)
  unfolding withdraw_funds_from_account
  withdraw_funds_from_account-Keeping x b v =
      elim (Option-cases (get b.cash_balances b.base_currency)) [
        | inl e ↦ ground (arith, e, v)
        | inr (cash, e) ↦ ground (arith, e, v, put_cash-IsSound (F.sub cash x) b v)
      ]

  add_cash-Keeping :
      (x : F.Num) → Keeping (λ b. (base_cash >>= λ (cash : F.Num). set_base_cash (F.add cash x)) b)
  unfolding base_cash set_base_cash
  add_cash-Keeping x b v = elim (Option-cases (get b.cash_balances b.base_currency)) [
    | inl e ↦ ground (arith, e, v)
    | inr (cash, e) ↦ ground (arith, e, v, put_cash-IsSound (F.add cash x) b v)
  ]

  pay_out-Keeping : (id : String) (x : F.Num) → Keeping (pay_out id x)
  unfolding pay_out
  pay_out-Keeping id x =
      bind-Keeping (λ b. on_portfolio id (withdraw_funds b.current_dt x) b)
        (λ _. base_cash >>= λ (cash : F.Num). set_base_cash (F.add cash x))
        (λ b v.
          on_portfolio-Soundly id (withdraw_funds b.current_dt x)
            (withdraw_funds-Keeps b.current_dt x) b v)
        (λ _. add_cash-Keeping x)

  pub withdraw_funds_from_portfolio-Keeping :
      (id : String) (x : F.Num) → Keeping (withdraw_funds_from_portfolio id x)
  unfolding withdraw_funds_from_portfolio the_portfolio
  withdraw_funds_from_portfolio-Keeping id x b v = elim (Option-cases (get b.portfolios id)) [
    | inl e ↦ ground (arith, e, v)
    | inr (p, e) ↦ ground (arith, e, v, pay_out-Keeping id x b v)
  ]

  new_portfolio-IsFiled :
      (dt : ℕ) (x : F.Num) (currency id : String) (name : Option String)
      → IsFiled (new_portfolio F dt x currency id name).positions
  unfolding new_portfolio
  new_portfolio-IsFiled dt x currency id name = empty-IsFiled F

  pub create_portfolio-Keeping :
      (id : String) (name : Option String) → Keeping (create_portfolio id name)
  unfolding create_portfolio contains new_portfolio
  create_portfolio-Keeping id name b v =
      let p = new_portfolio F b.current_dt (zero_num F) b.base_currency id name in
      elim (Option-cases (get b.portfolios id)) [
        | inr (q, e) ↦ ground (arith, e, v)
        | inl e ↦
            rw (e, create_portfolio)
              (record {
                account = v.account;
                paired = λ k.
                    ground (
                      arith,
                      get-put b.portfolios id k p,
                      get-put b.open_orders id k [],
                      v.paired k,
                    );
                filed = λ k q g. ground (
                  arith,
                  get-put b.portfolios id k p,
                  v.filed k q,
                  new_portfolio-IsFiled b.current_dt (zero_num F) b.base_currency id name,
                );
                named =
                    λ k q g. ground (arith, get-put b.portfolios id k p, =ₛ_iff id k, v.named k q);
              })
      ]

  pub set_queue-IsSound :
      (id : String) (q' q : List (Order F)) (b : Broker F)
      → get b.open_orders id ≡ some q
      → IsSound b
      → IsSound (set_queue id q' b).1
  unfolding set_queue contains
  set_queue-IsSound id q' q b e v = record {
    account = v.account;
    paired = λ k. ground (arith, e, get-put b.open_orders id k q', =ₛ_iff id k, v.paired k);
    filed = v.filed;
    named = v.named;
  }

  pub submit_order-Keeping : (id : String) (order : Order F) → Keeping (submit_order id order)
  unfolding submit_order the_queue
  submit_order-Keeping id order b v = elim (Option-cases (get b.open_orders id)) [
    | inl e ↦ ground (arith, e, v)
    | inr (q, e) ↦ ground (arith, e, v, set_queue-IsSound id (q ++ order ∷ []) q b e v)
  ]
