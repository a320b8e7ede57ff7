-- ===== src/Portfolio/Tests.antt =====
-- A portfolio with ten shares of a company, in whole won.
use vm_quant_trader.Prelude.{ℕ, ◌≡◌, refl, true, false, none, some, [], ◌∷◌, arith}
use vm_quant_trader.Prelude.Int.{ℤ, pos, negsuc, ◌+ℤ◌}
use vm_quant_trader.Errors.{ok, err, is_ok, bad, price_not_positive}
use vm_quant_trader.Floats.Whole.{whole}
use vm_quant_trader.Dict.{get}
use vm_quant_trader.Transaction.{Transaction}
use vm_quant_trader.Position.{Position, open_from_transaction}
use vm_quant_trader.PositionHandler.{Positions, transact_position}
use vm_quant_trader.PositionHandler.Holdings.{
  held, IsFiled, held-transact_position, transact_position-IsFiled, empty-IsFiled,
}
use vm_quant_trader.Portfolio.{Portfolio, new_portfolio, transact_asset}
use vm_quant_trader.Portfolio.Cash.{subscribe, withdraw, transact, mark, run, IsTrail, run-IsTrail}
use vm_quant_trader.Portfolio.Trades.{Traded, transact_asset-Traded, transact_asset_unpaid}
use vm_quant_trader.Portfolio.Timely.{IsTimely, transact_asset_returns}

abbrev trade : ℤ → ℕ → ℤ → Transaction whole
trade quantity dt price = record {
  asset = "005930";
  quantity = quantity;
  dt = dt;
  price = price;
  order_id = "o1";
  commission = pos 3;
}

abbrev no_positions : Positions whole
no_positions = []

abbrev bought : Positions whole
unfolding transact_position
bought = (transact_position (trade (pos 10) 5 (pos 700)) no_positions).1

bought-IsFiled : IsFiled bought
unfolding bought
bought-IsFiled =
    transact_position-IsFiled (trade (pos 10) 5 (pos 700)) no_positions (empty-IsFiled whole)

held-transact_position_example :
    held (transact_position (trade (negsuc 3) 6 (pos 710)) bought).1 "005930"
    ≡ held bought "005930" +ℤ negsuc 3
held-transact_position_example =
    held-transact_position (trade (negsuc 3) 6 (pos 710)) bought "005930" bought-IsFiled

abbrev fund : Portfolio whole
unfolding bought
fund = record {
  start_dt = 1;
  current_dt = 5;
  starting_cash = pos 10000;
  currency = "KRW";
  portfolio_id = "p";
  name = none;
  positions = bought;
  history = [];
  cash = pos 2997;
}

-- What the portfolio holds.
abbrev ten_shares : Position whole
unfolding open_from_transaction
ten_shares = open_from_transaction (trade (pos 10) 5 (pos 700))

fund-position : get fund.positions "005930" ≡ some ten_shares
unfolding fund bought transact_position ten_shares
fund-position = refl

transact_asset-Traded_example :
    let t = trade (negsuc 3) 6 (pos 710) in
    Traded t fund (transact_asset t fund).1 (is_ok (transact_asset t fund).0)
unfolding fund
transact_asset-Traded_example =
    transact_asset-Traded (trade (negsuc 3) 6 (pos 710)) fund bought-IsFiled

-- A sale that is booked, and one at no price that raises.
sale_returns : (transact_asset (trade (negsuc 3) 6 (pos 710)) fund).0 ≡ ok tt
unfolding fund bought transact_asset
sale_returns = refl

free_sale_raises :
    (transact_asset (trade (negsuc 3) 6 (pos 0)) fund).0 ≡ err (bad price_not_positive)
unfolding fund bought transact_asset
free_sale_raises = refl

transact_asset_unpaid_example :
    let (r, p) = transact_asset (trade (negsuc 3) 6 (pos 0)) fund in
    (is_ok r ≡ false)
    × (held p.positions "005930" ≡ held fund.positions "005930" +ℤ negsuc 3)
    × (p.cash ≡ fund.cash)
    × (p.history ≡ fund.history)
unfolding fund ten_shares
transact_asset_unpaid_example =
    transact_asset_unpaid (trade (negsuc 3) 6 (pos 0)) fund ten_shares bought-IsFiled fund-position
      refl (omega arith) refl

run-IsTrail_example : IsTrail (
    run
      (subscribe 2 (pos 50)
        ∷ transact (trade (pos 1) 3 (pos 70))
        ∷ withdraw 3 (pos 500)
        ∷ withdraw 1 (pos 5)
        ∷ mark "005930" (pos 71) 4
        ∷ [])
      (new_portfolio whole 1 (pos 100) "KRW" "p" none))
run-IsTrail_example =
    run-IsTrail
      (subscribe 2 (pos 50)
        ∷ transact (trade (pos 1) 3 (pos 70))
        ∷ withdraw 3 (pos 500)
        ∷ withdraw 1 (pos 5)
        ∷ mark "005930" (pos 71) 4
        ∷ [])
      1 (pos 100) "KRW" "p" none

abbrev later_sale : Transaction whole
later_sale = trade (negsuc 3) 6 (pos 710)

empty_fund-IsTimely : IsTimely (new_portfolio whole 1 (pos 100) "KRW" "p" none) 6
unfolding new_portfolio get
empty_fund-IsTimely = record { clock = ground arith; positions = λ j q e. cc }

transact_asset_returns_example :
    let p = new_portfolio whole 1 (pos 100) "KRW" "p" none in
    (is_ok (transact_asset later_sale p).0 ≡ true) × IsTimely (transact_asset later_sale p).1 6
unfolding new_portfolio
transact_asset_returns_example =
    transact_asset_returns later_sale (new_portfolio whole 1 (pos 100) "KRW" "p" none)
      (empty-IsFiled whole) empty_fund-IsTimely refl
