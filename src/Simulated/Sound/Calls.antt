-- ===== src/Simulated/Sound/Calls.antt =====
-- The calls on a simulated broker, and what they keep whatever their order.
use vm_quant_trader.Prelude.{
  ℕ, ◌≡◌, String, Bool, true, false, Option, List, [], ◌∷◌, arith, if◌then◌else◌, =ₛ_iff,
  Bool-cases, inl, inr,
}
use vm_quant_trader.Errors.{ok, Method}
use vm_quant_trader.Floats.{Floats, zero_num}
use vm_quant_trader.Dict.{Dict, get, put, contains}
use vm_quant_trader.Dict.Laws.{get-put}
use vm_quant_trader.Order.{Order}
use vm_quant_trader.FeeModel.{FeeModel, listed}
use vm_quant_trader.Simulated.Market.{Market}
use vm_quant_trader.Simulated.Broker.{
  Broker, no_cash, set_cash_balances, supported_currencies, new_broker, create_portfolio,
  subscribe_funds_to_account, withdraw_funds_from_account, subscribe_funds_to_portfolio,
  withdraw_funds_from_portfolio,
}
use vm_quant_trader.Simulated.Update.{submit_order, update}
use vm_quant_trader.Simulated.Sound.{IsSound}
use vm_quant_trader.Simulated.Sound.Transfers.{
  subscribe_funds_to_account-Keeping, withdraw_funds_from_account-Keeping,
  subscribe_funds_to_portfolio-Keeping, withdraw_funds_from_portfolio-Keeping,
  create_portfolio-Keeping, submit_order-Keeping,
}
use vm_quant_trader.Simulated.Sound.Updates.{update-Keeping}

-- A call of a method that changes the broker.
pub data Call (F : Floats) : Type 0 where
  deposit : F.Num → Call F
  withdraw : F.Num → Call F
  create : String → Option String → Call F
  fund : String → F.Num → Call F
  release : String → F.Num → Call F
  submit : String → Order F → Call F
  tick : ℕ → Call F

module _ {F : Floats} (market : Market F) where
  unfoldable pub step : Call F → Method (Broker F) (Unit {0})
  unfolding subscribe_funds_to_account withdraw_funds_from_account create_portfolio
      subscribe_funds_to_portfolio withdraw_funds_from_portfolio submit_order update
  step (deposit x) = subscribe_funds_to_account x
  step (withdraw x) = withdraw_funds_from_account x
  step (create id name) = create_portfolio id name
  step (fund id x) = subscribe_funds_to_portfolio id x
  step (release id x) = withdraw_funds_from_portfolio id x
  step (submit id order) = submit_order id order
  step (tick dt) = update market dt

  -- The calls one after the other, by a caller that goes on after an exception.
  unfoldable pub run : List (Call F) → Broker F → Broker F
  unfolding step
  run [] b = b
  run (c ∷ cs) b = run cs (step c b).1

  step-IsSound : (c : Call F) (b : Broker F) → IsSound b → IsSound (step c b).1
  unfolding step
  step-IsSound (deposit x) b v = subscribe_funds_to_account-Keeping x b v
  step-IsSound (withdraw x) b v = withdraw_funds_from_account-Keeping x b v
  step-IsSound (create id name) b v = create_portfolio-Keeping id name b v
  step-IsSound (fund id x) b v = subscribe_funds_to_portfolio-Keeping id x b v
  step-IsSound (release id x) b v = withdraw_funds_from_portfolio-Keeping id x b v
  step-IsSound (submit id order) b v = submit_order-Keeping id order b v
  step-IsSound (tick dt) b v = update-Keeping market dt b v

  run_from-IsSound : (cs : List (Call F)) (b : Broker F) → IsSound b → IsSound (run cs b)
  unfolding run
  run_from-IsSound [] b v = v
  run_from-IsSound (c ∷ cs) b v = run_from-IsSound cs (step c b).1 (step-IsSound c b v)

contains-no_cash :
    (F : Floats) (c : String) (cs : List String)
    → listed c cs ≡ true
    → contains (no_cash F cs) c ≡ true
unfolding listed contains get
contains-no_cash F c [] h = cc
contains-no_cash F c (x ∷ cs) h = ground (arith, h, contains-no_cash F c cs, =ₛ_iff x c)

contains-put_when {ℓ} :
    {V : Type ℓ} (when : Bool) (d : Dict V) (k : String) (v : V)
    → contains d k ≡ true
    → contains (if when then put d k v else d) k ≡ true
unfolding contains
contains-put_when true d k v h = ground (arith, get-put d k k v, =ₛ_iff k k)
contains-put_when false d k v h = h

contains-set_cash_balances :
    (F : Floats) (c : String) (x : F.Num)
    → listed c supported_currencies ≡ true
    → contains (set_cash_balances F c x) c ≡ true
unfolding set_cash_balances
contains-set_cash_balances F c x h =
    contains-put_when (F.lt (zero_num F) x) (no_cash F supported_currencies) c x
      (contains-no_cash F c supported_currencies h)

module _ {F : Floats} where
  new_broker-IsSound :
      (dt : ℕ) (account_id : Option String) (currency : String) (x : F.Num) (model : FeeModel F)
      (b : Broker F)
      → new_broker F dt account_id currency x model ≡ ok b
      → IsSound b
  unfolding new_broker get contains
  new_broker-IsSound dt account_id currency x model b e =
      elim (Bool-cases (listed currency supported_currencies)) [
        | inr _ ↦ ground (arith, e)
        | inl supported ↦ record {
          account = ground (arith, e, supported, contains-set_cash_balances F currency x supported);
          paired = λ id. ground (arith, e, supported);
          filed = λ id p g. ground (arith, e, supported, g);
          named = λ id p g. ground (arith, e, supported, g);
        }
      ]

-- Whatever is called on a new simulated broker, and whichever calls raise: it has an account in its
-- base currency, an order queue for each portfolio and for nothing else, and each portfolio stands
-- under its own name with its positions filed.
pub run-IsSound :
    {F : Floats} (market : Market F) (calls : List (Call F)) (dt : ℕ) (account_id : Option String)
    (currency : String) (funds : F.Num) (model : FeeModel F) (b : Broker F)
    → new_broker F dt account_id currency funds model ≡ ok b
    → IsSound (run market calls b)
run-IsSound market calls dt account_id currency funds model b e =
    run_from-IsSound market calls b (new_broker-IsSound dt account_id currency funds model b e)
