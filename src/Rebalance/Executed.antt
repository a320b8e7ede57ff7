-- ===== src/Rebalance/Executed.antt =====
-- The execution handler against the simulated broker: every order of a rebalance is filled.
use vm_quant_trader.Prelude.{
  ℕ, ◌≡◌, refl, ◌∙◌, String, Bool, true, false, List, [], ◌∷◌, arith, ◌=ₛ◌, =ₛ_iff, if◌then◌else◌,
  ap, Option-cases, inl, inr,
}
use vm_quant_trader.Prelude.Int.{ℤ, pos, pos_part, neg_part, ◌+ℤ◌, int_laws, +ℤ_zero}
use vm_quant_trader.Errors.{Result, ok, err, Method, is_ok, continue}
use vm_quant_trader.Floats.{Floats}
use vm_quant_trader.Dict.{get, get_or, contains}
use vm_quant_trader.Dict.Laws.{get-put}
use vm_quant_trader.Order.{Order}
use vm_quant_trader.Simulated.Market.{Market}
use vm_quant_trader.Simulated.Broker.{Broker, the_portfolio}
use vm_quant_trader.Simulated.Update.{submit_order, set_queue, the_queue, update}
use vm_quant_trader.Simulated.Update.Shares.{holding, queue_of, ordered}
use vm_quant_trader.Simulated.Update.Conserves.{update-Conserves}
use vm_quant_trader.Simulated.Update.Returns.{IsPriced, IsReady, found_in}
use vm_quant_trader.Simulated.Update.Liveness.{update_returns}
use vm_quant_trader.Simulated.Sound.Transfers.{set_queue-IsSound}
use vm_quant_trader.Rebalance.System.{submit_all}

-- The broker, of sound shape, with its clock at `dt`, nothing later than that and nothing on order.
pub record IsIdle {F : Floats} (dt : ℕ) (has : String → Bool) (b : Broker F) : Type 0 where
  pub ready : IsReady dt has b
  pub empty : (id : String) → queue_of b id ≡ []

-- One portfolio's holdings have moved by some orders, and nothing else has.
pub record Filled {F : Floats} (id : String) (orders : List (Order F)) (b b' : Broker F)
    : Type 0 where
  pub own : (j : String) → holding b' id j ≡ holding b id j +ℤ ordered orders j
  pub others : (k j : String) → (id =ₛ k) ≡ false → holding b' k j ≡ holding b k j

module _ {F : Floats} where
  -- What submitting to an idle broker does.
  abbrev with_order : String → Order F → Broker F → Broker F
  with_order id order b = (set_queue id (order ∷ []) b).1

  submit_order_idle :
      {dt : ℕ} {has : String → Bool} (id : String) (order : Order F) (b : Broker F)
      → IsIdle dt has b
      → has id ≡ true
      → submit_order id order b ≡ (ok tt, with_order id order b)
  unfolding submit_order the_queue the_portfolio set_queue get_or contains
  submit_order_idle {dt} {has} id order b v known =
      let (p, found) = found_in dt has id b v.ready known in
      elim (Option-cases (get b.open_orders id)) [
        | inl e ↦ ground (arith, e, found, v.ready.sound.paired id)
        | inr (q, e) ↦ ground (arith, e, found, v.empty id)
      ]

  queue_of-with_order :
      (id k : String) (order : Order F) (b : Broker F)
      → queue_of (with_order id order b) k ≡ (if id =ₛ k then order ∷ [] else queue_of b k)
  unfolding set_queue get_or
  queue_of-with_order id k order b = ground (arith, get-put b.open_orders id k (order ∷ []))

  holding-with_order :
      (id k j : String) (order : Order F) (b : Broker F)
      → holding (with_order id order b) k j ≡ holding b k j
  unfolding set_queue get
  holding-with_order id k j order b = refl

  with_order-IsReady :
      (dt : ℕ) (has : String → Bool) (id : String) (order : Order F) (b : Broker F)
      → IsReady dt has b
      → has id ≡ true
      → IsReady dt has (with_order id order b)
  unfolding set_queue contains
  with_order-IsReady dt has id order b v known = elim (Option-cases (get b.open_orders id)) [
    | inl e ↦ absurd (ground (arith, e, v.sound.paired id, v.domain id, known))
    | inr (q, e) ↦ record {
      sound = set_queue-IsSound id (order ∷ []) q b e v.sound;
      clock = v.clock;
      timely = v.timely;
      domain = v.domain;
    }
  ]

settled_own : (h h' q : ℤ) → h' +ℤ pos 0 ≡ h +ℤ q → h' ≡ h +ℤ q
settled_own h h' q e = omega (int_laws, ap pos_part e, ap neg_part e)

after_ok :
    {S A : Type 0} (m : Method S A) (out : Result (Unit {0}) × S)
    → is_ok out.0 ≡ true
    → continue (λ _. m) out ≡ m out.1
after_ok m (ok a, s) h = refl
after_ok m (err e, s) h = cc

in_turn : (h q t : ℤ) → h +ℤ (q +ℤ pos 0) +ℤ t ≡ h +ℤ (q +ℤ t)
in_turn h q t = omega int_laws

settled_other : (h h' : ℤ) → h' +ℤ pos 0 ≡ h +ℤ pos 0 → h' ≡ h
settled_other h h' e = omega (int_laws, ap pos_part e, ap neg_part e)

module _ {F : Floats} (market : Market F) (dt : ℕ) (priced : IsPriced market dt)
    (opened : market.is_open_at_datetime dt ≡ true) (has : String → Bool) (id : String)
    (known : has id ≡ true) where
  update-Filled :
      (order : Order F) (b : Broker F)
      → IsIdle dt has b
      → let (r, b') = update market dt (with_order id order b) in
        (is_ok r ≡ true) × IsIdle dt has b' × Filled id (order ∷ []) b b'
  unfolding set_queue
  update-Filled order b v =
      let b₁ = with_order id order b in
      let ready = with_order-IsReady dt has id order b v.ready known in
      let (returns, after, emptied, held) =
        update_returns market dt b₁ priced ready.sound ready.timely in
      let moves = update-Conserves market dt b₁ ready.sound returns in
      let b' = (update market dt b₁).1 in
      (
        returns,
        record {
          ready = record {
            sound = after.sound;
            clock = after.clock;
            timely = after.timely;
            domain = λ k. after.domain k ∙ ready.domain k;
          };
          empty = λ k. ground (arith, moves.queues k, opened);
        },
        record {
          own = λ j. ground (
            arith,
            moves.shares id j,
            moves.queues id,
            opened,
            holding-with_order id id j order b,
            queue_of-with_order id id order b,
            =ₛ_iff id id,
            settled_own (holding b id j) (holding b' id j) (ordered (order ∷ []) j),
          );
          others = λ k j e. ground (
            arith,
            e,
            moves.shares k j,
            moves.queues k,
            opened,
            holding-with_order id k j order b,
            queue_of-with_order id k order b,
            v.empty k,
            settled_other (holding b k j) (holding b' k j),
          );
        },
      )

  nothing-Filled : (b : Broker F) → Filled {F = F} id [] b b
  nothing-Filled b = record {
    own = λ j. ground (arith, +ℤ_zero (holding b id j));
    others = λ k j e. refl;
  }

  more-Filled :
      (order : Order F) (orders : List (Order F)) (b c d : Broker F)
      → Filled id (order ∷ []) b c
      → Filled id orders c d
      → Filled id (order ∷ orders) b d
  more-Filled order orders b c d first rest = record {
    own = λ j. ground (
      arith,
      first.own j,
      rest.own j,
      +ℤ_zero (holding b id j),
      in_turn (holding b id j) order.quantity (ordered orders j),
    );
    others = λ k j e. ground (arith, e, first.others k j, rest.others k j);
  }

  submit_all_step :
      (order : Order F) (orders : List (Order F)) (b : Broker F)
      → IsIdle dt has b
      → submit_all market id dt (order ∷ orders) b
        ≡ submit_all market id dt orders (update market dt (with_order id order b)).1
  unfolding submit_all
  submit_all_step order orders b v = rw (submit_order_idle id order b v known) (
      after_ok (submit_all market id dt orders) (update market dt (with_order id order b))
        (update-Filled order b v).0)

  -- Against a simulated broker of sound shape that has the portfolio and whose clock already shows
  -- the time, whose exchange is open then, with a price above zero for every asset, with nothing on
  -- order and no portfolio or position later than that time: the execution handler returns, and
  -- every order is filled. Of every asset the portfolio then holds as much more as the orders buy,
  -- less what they sell; no other portfolio's holdings move; and the broker is again of sound
  -- shape, at that time, with nothing later than it and nothing on order.
  pub submit_all_fills :
      (orders : List (Order F)) (b : Broker F)
      → IsIdle dt has b
      → let (r, b') = submit_all market id dt orders b in
        (is_ok r ≡ true) × IsIdle dt has b' × Filled id orders b b'
  unfolding submit_all
  submit_all_fills [] b v = (refl, v, nothing-Filled b)
  submit_all_fills (order ∷ orders) b v =
      let (returns, idle, first) = update-Filled order b v in
      let c = (update market dt (with_order id order b)).1 in
      let (others_return, end_idle, rest) = submit_all_fills orders c idle in
      let d = (submit_all market id dt orders c).1 in
      rw (submit_all_step order orders b v)
        (others_return, end_idle, more-Filled order orders b c d first rest)
