-- ===== src/Live/Session/Marks.antt =====
-- Marking to market: valuations change, holdings and cash do not.
use vm_quant_trader.Prelude.{
  ℕ, ◌≡◌, refl, ◌∙◌, String, Option, none, some, List, [], ◌∷◌, arith, ltb, if◌then◌else◌, =ₛ_iff,
  Option-cases, inl, inr,
}
use vm_quant_trader.Prelude.Int.{ℤ}
use vm_quant_trader.Errors.{Result, ok, err, Method, ◌>>=◌}
use vm_quant_trader.Errors.Frame.{IsFrame, Respects, Respects-bind}
use vm_quant_trader.Floats.{Floats}
use vm_quant_trader.Dict.{get, keys}
use vm_quant_trader.Dict.Laws.{get-put}
use vm_quant_trader.PositionHandler.Holdings.{held}
use vm_quant_trader.Portfolio.{update_market_value_of_asset}
use vm_quant_trader.Portfolio.Marks.{held-update_market_value, cash-update_market_value}
use vm_quant_trader.Live.Client.{Venue}
use vm_quant_trader.Live.Broker.{Broker, ask, now, on_portfolio}
use vm_quant_trader.Live.Session.{
  symbols_of, revalue, mark_symbols, mark_portfolios, mark_to_market,
}

-- The cash of a portfolio, and what it holds of an asset.
abbrev pub account_of :
    {F : Floats} {W : Type 0} → Broker F W → String → String → Option (F.Num × ℤ)
account_of b id j = elim (get b.portfolios id) [
  | none ↦ none
  | some p ↦ some (p.cash, held p.positions j)
]

module _ {F : Floats} {W : Type 0} where
  abbrev SameAccounts : Broker F W → Broker F W → Type 0
  SameAccounts b b' = (id j : String) → account_of b' id j ≡ account_of b id j

  account_frame : IsFrame SameAccounts
  account_frame = record { same = λ b id j. refl; next = λ b c d h k id j. k id j ∙ h id j }

  abbrev MovesNothing : {A : Type 0} → Method (Broker F W) A → Type 0
  MovesNothing m = Respects SameAccounts m

  MovesNothing-bind :
      {A B : Type 0} (m : Method (Broker F W) A) (f : A → Method (Broker F W) B)
      → MovesNothing m
      → ((a : A) → MovesNothing (f a))
      → MovesNothing (m >>= f)
  MovesNothing-bind m f h k = Respects-bind SameAccounts account_frame m f h k

  revalue_moves_nothing :
      (k symbol : String) (dt : ℕ) (out : Result F.Num × Broker F W) (id j : String)
      → account_of (revalue k symbol dt out).1 id j ≡ account_of out.1 id j
  unfolding revalue on_portfolio
  revalue_moves_nothing k symbol dt (err e, b) id j = refl
  revalue_moves_nothing k symbol dt (ok price, b) id j = elim (Option-cases (get b.portfolios k)) [
    | inl e ↦ ground (arith, e)
    | inr (p, e) ↦
        let (r, p') = update_market_value_of_asset symbol price dt p in
        ground (
          arith,
          e,
          get-put b.portfolios k id p',
          =ₛ_iff k id,
          held-update_market_value symbol price dt p j,
          cash-update_market_value symbol price dt p,
        )
  ]

module _ {F : Floats} {W : Type 0} (venue : Venue F W) where
  mark_symbols-MovesNothing :
      (k : String) (dt : ℕ) (symbols : List String) → MovesNothing (mark_symbols venue k dt symbols)
  unfolding mark_symbols
  mark_symbols-MovesNothing k dt [] b id j = refl
  mark_symbols-MovesNothing k dt (symbol ∷ symbols) b id j =
      MovesNothing-bind
        (λ b. revalue k symbol dt (ask (venue.get_asset_latest_mid_price dt symbol) b))
        (λ _. mark_symbols venue k dt symbols)
        (λ b.
          revalue_moves_nothing k symbol dt (ask (venue.get_asset_latest_mid_price dt symbol) b))
        (λ _. mark_symbols-MovesNothing k dt symbols) b id j

  mark_portfolios-MovesNothing :
      (dt : ℕ) (ids : List String) → MovesNothing (mark_portfolios venue dt ids)
  unfolding mark_portfolios
  mark_portfolios-MovesNothing dt [] b id j = refl
  mark_portfolios-MovesNothing dt (k ∷ ids) b id j =
      MovesNothing-bind (λ b. mark_symbols venue k dt (symbols_of (get b.portfolios k)) b)
        (λ _. mark_portfolios venue dt ids)
        (λ b. mark_symbols-MovesNothing k dt (symbols_of (get b.portfolios k)) b)
        (λ _. mark_portfolios-MovesNothing dt ids) b id j

  -- Marking to market leaves the cash of every portfolio and its holding of every asset as they
  -- are, also when a revaluation raises.
  pub account_of-mark_to_market :
      (b : Broker F W) (id j : String)
      → account_of (mark_to_market venue b).1 id j ≡ account_of b id j
  unfolding mark_to_market now
  account_of-mark_to_market b id j =
      let w = venue.clear_cache b.world in
      let (t, w') = venue.clock w in
      let dt = if ltb t b.current_dt then b.current_dt else t in
      let b' : Broker F W = record b { current_dt = dt; world = w' } in
      mark_portfolios-MovesNothing dt (keys b.portfolios) b' id j
