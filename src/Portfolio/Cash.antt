-- ===== src/Portfolio/Cash.antt =====
-- The trail of a portfolio: timestamps never go back, and the newest event shows the cash.
use vm_quant_trader.Prelude.{
  ℕ, ◌≤◌, ◌≡◌, refl, String, Option, List, [], ◌∷◌, ◌++◌, arith, ltb, ◌||◌, Bool-cases, inl, inr,
}
use vm_quant_trader.Errors.{Method, is_ok}
use vm_quant_trader.Floats.{Floats, zero_num}
use vm_quant_trader.Transaction.{Transaction, cost_with_commission}
use vm_quant_trader.PositionHandler.{transact_position}
use vm_quant_trader.Portfolio.{
  Portfolio, PortfolioEvent, new_portfolio, create_subscription, create_withdrawal, trade_event,
  subscribe_funds, withdraw_funds, transact_asset, update_market_value_of_asset,
}

-- A call of one of the methods that change a portfolio.
pub data Op (F : Floats) : Type 0 where
  subscribe : ℕ → F.Num → Op F
  withdraw : ℕ → F.Num → Op F
  transact : Transaction F → Op F
  mark : String → F.Num → ℕ → Op F

module _ {F : Floats} where
  unfoldable pub step : Op F → Method (Portfolio F) (Unit {0})
  unfolding subscribe_funds withdraw_funds transact_asset update_market_value_of_asset
  step (subscribe dt amount) = subscribe_funds dt amount
  step (withdraw dt amount) = withdraw_funds dt amount
  step (transact t) = transact_asset t
  step (mark asset price dt) = update_market_value_of_asset asset price dt

  -- The calls one after the other, by a caller that goes on after an exception.
  unfoldable pub run : List (Op F) → Portfolio F → Portfolio F
  unfolding step
  run [] p = p
  run (op ∷ ops) p = run ops (step op p).1

  -- No event is later than the one behind it in the list, nor than the end.
  abbrev pub IsChronicle : List (PortfolioEvent F) → ℕ → Type 0
  IsChronicle [] now = Unit
  IsChronicle (e ∷ []) now = e.dt ≤ now
  IsChronicle (e ∷ e' ∷ es) now = (e.dt ≤ e'.dt) × IsChronicle (e' ∷ es) now

  -- Whether the newest event shows a balance.
  abbrev pub Shows : List (PortfolioEvent F) → F.Num → Type 0
  Shows [] cash = Unit
  Shows (e ∷ []) cash = e.balance ≡ cash
  Shows (e ∷ e' ∷ es) cash = Shows (e' ∷ es) cash

  pub record IsTrail (p : Portfolio F) : Type 0 where
    pub ordered : IsChronicle p.history p.current_dt
    pub balanced : Shows p.history (F.round_cents p.cash)

  IsChronicle-later :
      (h : List (PortfolioEvent F)) (a b : ℕ) → IsChronicle h a → a ≤ b → IsChronicle h b
  IsChronicle-later [] a b h le = tt
  IsChronicle-later (e ∷ []) a b h le = omega arith
  IsChronicle-later (e ∷ e' ∷ es) a b h le = (h.0, IsChronicle-later (e' ∷ es) a b h.1 le)

  IsChronicle-push :
      (h : List (PortfolioEvent F)) (e : PortfolioEvent F) (now : ℕ)
      → IsChronicle h now
      → now ≤ e.dt
      → IsChronicle (h ++ e ∷ []) e.dt
  IsChronicle-push [] e now h le = omega arith
  IsChronicle-push (x ∷ []) e now h le = (omega arith, omega arith)
  IsChronicle-push (x ∷ y ∷ es) e now h le = (h.0, IsChronicle-push (y ∷ es) e now h.1 le)

  Shows-push : (h : List (PortfolioEvent F)) (e : PortfolioEvent F) → Shows (h ++ e ∷ []) e.balance
  Shows-push [] e = refl
  Shows-push (x ∷ []) e = refl
  Shows-push (x ∷ y ∷ es) e = Shows-push (y ∷ es) e

  -- What a method leaves behind, by its trail: nothing new, a later clock, or one event of the
  -- new time that shows the new cash.
  data Leaves (p q : Portfolio F) : Type 0 where
    clock : p.current_dt ≤ q.current_dt → q.cash ≡ p.cash → q.history ≡ p.history → Leaves p q
    event :
        (e : PortfolioEvent F)
        → p.current_dt ≤ q.current_dt
        → e.dt ≡ q.current_dt
        → e.balance ≡ F.round_cents q.cash
        → q.history ≡ p.history ++ e ∷ []
        → Leaves p q

  Leaves-IsTrail : {p q : Portfolio F} → Leaves p q → IsTrail p → IsTrail q
  Leaves-IsTrail {p} {q} (clock later cash history) v = record {
    ordered = rw history (IsChronicle-later p.history p.current_dt q.current_dt v.ordered later);
    balanced = rw (history, cash) v.balanced;
  }
  Leaves-IsTrail {p} {q} (event e later dt balance history) v = record {
    ordered =
        rw (history, ← dt) (IsChronicle-push p.history e p.current_dt v.ordered (omega arith));
    balanced = rw (history, ← balance) (Shows-push p.history e);
  }

  subscribe-Leaves : (dt : ℕ) (x : F.Num) (p : Portfolio F) → Leaves p (subscribe_funds dt x p).1
  unfolding subscribe_funds
  subscribe-Leaves dt x p = elim (Bool-cases (ltb dt p.current_dt)) [
    | inl late ↦ clock (ground arith) (ground arith) (ground arith)
    | inr timely ↦ elim (Bool-cases (F.lt x (zero_num F))) [
      | inl negative ↦ clock (ground arith) (ground arith) (ground arith)
      | inr allowed ↦
          event (create_subscription F dt x (F.add p.cash x)) (ground arith) (ground arith)
            (ground arith) (ground arith)
    ]
  ]

  withdraw-Leaves : (dt : ℕ) (x : F.Num) (p : Portfolio F) → Leaves p (withdraw_funds dt x p).1
  unfolding withdraw_funds
  withdraw-Leaves dt x p = elim (Bool-cases (ltb dt p.current_dt)) [
    | inl late ↦ clock (ground arith) (ground arith) (ground arith)
    | inr timely ↦ elim (Bool-cases (F.lt x (zero_num F) || F.lt p.cash x)) [
      | inl refused ↦ clock (ground arith) (ground arith) (ground arith)
      | inr allowed ↦
          event (create_withdrawal F dt x (F.sub p.cash x)) (ground arith) (ground arith)
            (ground arith) (ground arith)
    ]
  ]

  transact-Leaves : (t : Transaction F) (p : Portfolio F) → Leaves p (transact_asset t p).1
  unfolding transact_asset
  transact-Leaves t p = elim (Bool-cases (ltb t.dt p.current_dt)) [
    | inl late ↦ clock (ground arith) (ground arith) (ground arith)
    | inr timely ↦ elim (Bool-cases (is_ok (transact_position t p.positions).0)) [
      | inl done ↦
          event (trade_event t (F.sub p.cash (cost_with_commission t))) (ground arith)
            (ground arith) (ground arith) (ground arith)
      | inr raised ↦ clock (ground arith) (ground arith) (ground arith)
    ]
  ]

  mark-Leaves :
      (asset : String) (price : F.Num) (dt : ℕ) (p : Portfolio F)
      → Leaves p (update_market_value_of_asset asset price dt p).1
  unfolding update_market_value_of_asset
  mark-Leaves asset price dt p = clock (ground arith) (ground arith) (ground arith)

  step-IsTrail : (op : Op F) (p : Portfolio F) → IsTrail p → IsTrail (step op p).1
  unfolding step
  step-IsTrail (subscribe dt x) p v = Leaves-IsTrail (subscribe-Leaves dt x p) v
  step-IsTrail (withdraw dt x) p v = Leaves-IsTrail (withdraw-Leaves dt x p) v
  step-IsTrail (transact t) p v = Leaves-IsTrail (transact-Leaves t p) v
  step-IsTrail (mark asset price dt) p v = Leaves-IsTrail (mark-Leaves asset price dt p) v

  run_from-IsTrail : (ops : List (Op F)) (p : Portfolio F) → IsTrail p → IsTrail (run ops p)
  unfolding run
  run_from-IsTrail [] p v = v
  run_from-IsTrail (op ∷ ops) p v = run_from-IsTrail ops (step op p).1 (step-IsTrail op p v)

new_portfolio-IsTrail :
    (F : Floats) (dt : ℕ) (cash : F.Num) (currency id : String) (name : Option String)
    → IsTrail (new_portfolio F dt cash currency id name)
unfolding new_portfolio
new_portfolio-IsTrail F dt cash currency id name = elim (Bool-cases (F.lt (zero_num F) cash)) [
  | inl funded ↦ rw funded (record { ordered = omega arith; balanced = refl })
  | inr _ ↦ ground arith
]

-- Whatever is called on a new portfolio, and whichever calls raise: the history stands in the order
-- of time and is not later than the portfolio's clock, and its newest event shows the cash,
-- rounded.
pub run-IsTrail :
    {F : Floats} (ops : List (Op F)) (dt : ℕ) (cash : F.Num) (currency id : String)
    (name : Option String)
    → IsTrail (run ops (new_portfolio F dt cash currency id name))
run-IsTrail {F} ops dt cash currency id name =
    run_from-IsTrail ops (new_portfolio F dt cash currency id name)
      (new_portfolio-IsTrail F dt cash currency id name)
