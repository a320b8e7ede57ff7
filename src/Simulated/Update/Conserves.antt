-- ===== src/Simulated/Update/Conserves.antt =====
-- `update` as a whole: shares move from the queues to the holdings.
use mathlib.Core.Path.{subst}
use vm_quant_trader.Prelude.{
  ℕ, ◌≡◌, refl, String, Bool, true, false, List, [], ◌∷◌, arith, if◌then◌else◌, Bool-cases, inl,
  inr, ap,
}
use vm_quant_trader.Prelude.Int.{ℤ, pos_part, neg_part, ◌+ℤ◌, int_laws}
use vm_quant_trader.Errors.{Result, is_ok}
use vm_quant_trader.Errors.Frame.{continue-Returned}
use vm_quant_trader.Floats.{Floats}
use vm_quant_trader.Dict.{Dict, get, get_or, keys, contains}
use vm_quant_trader.FeeModel.{listed}
use vm_quant_trader.Simulated.Market.{Market}
use vm_quant_trader.Simulated.Broker.{Broker}
use vm_quant_trader.Simulated.Update.{
  Ticket, take_orders, sort_orders, execute_orders, mark_portfolios, trade, trade_when_open, update,
}
use vm_quant_trader.Simulated.Update.Shares.{
  holding, queue_of, waiting, ticketed, ticketed-sort_orders, Taken, WhenTaken, take_orders-Taken,
}
use vm_quant_trader.Simulated.Update.Executed.{
  SameShares, Moved, mark_portfolios-SameShares, execute_orders-Moved,
}
use vm_quant_trader.Simulated.Sound.{IsSound}
use vm_quant_trader.Simulated.Sound.Updates.{mark_portfolios-Keeping, take_orders-Keeping}

-- The shares held and on order stay as many, and the queues are empty or as they were.
pub record Conserves {F : Floats} (open_now : Bool) (b b' : Broker F) : Type 0 where
  pub shares :
      (id j : String) → holding b' id j +ℤ waiting b' id j ≡ holding b id j +ℤ waiting b id j
  pub queues : (id : String) → queue_of b' id ≡ (if open_now then [] else queue_of b id)

pub listed-keys {ℓ} : {V : Type ℓ} (d : Dict V) (id : String) → listed id (keys d) ≡ contains d id
unfolding listed keys contains get
listed-keys [] id = refl
listed-keys ((j, v) ∷ d) id = ground (arith, listed-keys d id)

settled : (h w h' w' t : ℤ) → h' ≡ h +ℤ t → t +ℤ w' ≡ w → h' +ℤ w' ≡ h +ℤ w
settled h w h' w' t e k =
    omega (int_laws, ap pos_part e, ap neg_part e, ap pos_part k, ap neg_part k)

module _ {F : Floats} where
  queue_of_unknown :
      (b : Broker F) (id : String)
      → IsSound b
      → contains b.portfolios id ≡ false
      → queue_of b id ≡ []
  unfolding contains get_or
  queue_of_unknown b id v h = ground (arith, v.paired id, h)

  through :
      {open_now : Bool} (b c d : Broker F)
      → SameShares b c
      → Conserves open_now c d
      → Conserves open_now b d
  through b c d same v = record {
    shares = λ id j. ground (arith, same.queues, same.holdings id j, v.shares id j);
    queues = λ id. ground (arith, same.queues, v.queues id);
  }

module _ {F : Floats} (market : Market F) where
  trade-Conserves :
      (dt : ℕ) (b : Broker F)
      → IsSound b
      → is_ok (trade market dt b).0 ≡ true
      → Conserves true b (trade market dt b).1
  unfolding trade
  trade-Conserves dt b v returns =
      let ids = keys b.portfolios in
      let out : Result (List (Ticket F)) × Broker F = take_orders ids b in
      let done =
        continue-Returned
          (λ (orders : List (Ticket F)). execute_orders market dt (sort_orders orders)) out
          returns in
      let ts = done.value in
      let taken : Taken ids b ts out.1 =
        subst (WhenTaken ids b) done.first (take_orders-Taken ids b) in
      let sound = take_orders-Keeping ids b v in
      let d = (execute_orders market dt (sort_orders ts) out.1).1 in
      let moves = execute_orders-Moved market dt (sort_orders ts) out.1 sound done.returns in
      rw done.rest (traded b out.1 d v taken moves)
    where
      traded :
          {ts : List (Ticket F)} (b c d : Broker F)
          → IsSound b
          → Taken (keys b.portfolios) b ts c
          → Moved (sort_orders ts) c d
          → Conserves true b d
      traded {ts} b c d v taken moves = record {
        shares = λ id j. ground (
          arith,
          taken.portfolios,
          moves.queues,
          moves.holdings id j,
          ticketed-sort_orders ts id j,
          taken.split id j,
          settled (holding b id j) (waiting b id j) (holding d id j) (waiting d id j)
              (ticketed ts id j),
        );
        queues = λ id. ground (
          arith,
          moves.queues,
          taken.left id,
          listed-keys b.portfolios id,
          queue_of_unknown b id v,
        );
      }

  trade_when_open-Conserves :
      (dt : ℕ) (b : Broker F)
      → IsSound b
      → is_ok (trade_when_open market dt b).0 ≡ true
      → Conserves (market.is_open_at_datetime dt) b (trade_when_open market dt b).1
  unfolding trade_when_open
  trade_when_open-Conserves dt b v returns = elim (Bool-cases (market.is_open_at_datetime dt)) [
    | inl open_now ↦ rw open_now (trade-Conserves dt b v (rw open_now at returns))
    | inr shut ↦ rw shut (record { shares = λ id j. refl; queues = λ id. refl })
  ]

  -- At a broker of sound shape, an `update` that returns neither loses nor repeats an order: of
  -- every asset, what a portfolio holds together with what its queue has on order stays the same
  -- number of shares; and if the exchange is open, then all queues are empty afterwards, so that
  -- the holdings have moved by exactly the orders, while if it is closed, then the queues are as
  -- they were.
  pub update-Conserves :
      (dt : ℕ) (b : Broker F)
      → IsSound b
      → is_ok (update market dt b).0 ≡ true
      → Conserves (market.is_open_at_datetime dt) b (update market dt b).1
  unfolding update
  update-Conserves dt b v returns =
      let now : Broker F = record b { current_dt = dt } in
      let sound : IsSound now = record {
        account = v.account;
        paired = v.paired;
        filed = v.filed;
        named = v.named;
      } in
      let ids = keys b.portfolios in
      let out : Result (Unit {0}) × Broker F = mark_portfolios market dt ids now in
      let done = continue-Returned (λ _. trade_when_open market dt) out returns in
      let same = mark_portfolios-SameShares market dt ids now in
      let rest =
        trade_when_open-Conserves dt out.1 (mark_portfolios-Keeping market dt ids now sound)
          done.returns in
      let all = through now out.1 (trade_when_open market dt out.1).1 same rest in
      rw done.rest (record { shares = all.shares; queues = all.queues })
