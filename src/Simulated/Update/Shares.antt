-- ===== src/Simulated/Update/Shares.antt =====
-- Shares held and shares on order: the counts of the theorems on `update`, and how taking the
-- queues and sorting moves them.
use vm_quant_trader.Prelude.{
  ◌≡◌, refl, String, none, some, List, [], ◌∷◌, ◌++◌, arith, if◌then◌else◌, ◌=ₛ◌, =ₛ_iff,
  Option-cases, inl, inr, ap,
}
use vm_quant_trader.Prelude.Int.{ℤ, pos, pos_part, neg_part, ◌+ℤ◌, int_laws, zero_+ℤ}
use vm_quant_trader.Errors.{Result, ok, err, pure, continue}
use vm_quant_trader.Floats.{Floats}
use vm_quant_trader.Dict.{get, get_or}
use vm_quant_trader.Dict.Laws.{get-put}
use vm_quant_trader.Order.{Order}
use vm_quant_trader.FeeModel.{listed}
use vm_quant_trader.PositionHandler.Holdings.{held}
use vm_quant_trader.Simulated.Broker.{Broker}
use vm_quant_trader.Simulated.Update.{
  the_queue, set_queue, Ticket, tickets, take_orders, insert_order, sort_orders,
}

module _ {F : Floats} where
  -- What the portfolio `id` holds of an asset.
  abbrev pub holding : Broker F → String → String → ℤ
  unfolding get
  holding b id j = elim (get b.portfolios id) [ none ↦ pos 0 | some p ↦ held p.positions j ]

  -- The orders that wait for the portfolio.
  abbrev pub queue_of : Broker F → String → List (Order F)
  queue_of b id = get_or b.open_orders id []

  -- The shares of an asset that a queue buys, less those that it sells.
  abbrev pub ordered : List (Order F) → String → ℤ
  ordered [] j = pos 0
  ordered (order ∷ q) j =
      let rest = ordered q j in if order.asset =ₛ j then order.quantity +ℤ rest else rest

  abbrev pub waiting : Broker F → String → String → ℤ
  waiting b id j = ordered (queue_of b id) j

  -- The shares of an asset that a list of orders buys for one portfolio.
  abbrev pub ticketed : List (Ticket F) → String → String → ℤ
  ticketed [] id j = pos 0
  ticketed ((k, order) ∷ ts) id j =
      let rest = ticketed ts id j in
      if k =ₛ id then (if order.asset =ₛ j then order.quantity +ℤ rest else rest) else rest

swap_first : (a b c : ℤ) → a +ℤ (b +ℤ c) ≡ b +ℤ (a +ℤ c)
swap_first a b c = omega int_laws

first_of : (a t o : ℤ) → a +ℤ t +ℤ o ≡ a +ℤ (t +ℤ o)
first_of a t o = omega int_laws

drained : (o t w : ℤ) → t +ℤ w ≡ pos 0 → o +ℤ t +ℤ w ≡ o
drained o t w h = omega (int_laws, ap pos_part h, ap neg_part h)

module _ {F : Floats} where
  ticketed-insert_order :
      (t : Ticket F) (ts : List (Ticket F)) (id j : String)
      → ticketed (insert_order t ts) id j ≡ ticketed (t ∷ ts) id j
  unfolding insert_order
  ticketed-insert_order t [] id j = refl
  ticketed-insert_order t (u ∷ us) id j = ground (
    arith,
    ticketed-insert_order t us id j,
    swap_first (t.1).quantity (u.1).quantity (ticketed us id j),
  )

  pub ticketed-sort_orders :
      (ts : List (Ticket F)) (id j : String) → ticketed (sort_orders ts) id j ≡ ticketed ts id j
  unfolding sort_orders
  ticketed-sort_orders [] id j = refl
  ticketed-sort_orders (t ∷ ts) id j =
      ground (arith, ticketed-insert_order t (sort_orders ts) id j, ticketed-sort_orders ts id j)

  ticketed-tickets :
      (k : String) (q : List (Order F)) (ts : List (Ticket F)) (id j : String)
      → ticketed (tickets k q ++ ts) id j
        ≡ (if k =ₛ id then ordered q j +ℤ ticketed ts id j else ticketed ts id j)
  ticketed-tickets k [] ts id j = ground (arith, zero_+ℤ (ticketed ts id j))
  ticketed-tickets k (order ∷ q) ts id j = ground (
    arith,
    ticketed-tickets k q ts id j,
    first_of order.quantity (ordered q j) (ticketed ts id j),
  )

  -- What taking the queues of some portfolios does.
  pub record Taken (ids : List String) (b : Broker F) (ts : List (Ticket F)) (b' : Broker F)
      : Type 0 where
    pub portfolios : b'.portfolios ≡ b.portfolios
    pub split : (id j : String) → ticketed ts id j +ℤ waiting b' id j ≡ waiting b id j
    pub left : (id : String) → queue_of b' id ≡ (if listed id ids then [] else queue_of b id)

  abbrev pub WhenTaken : List String → Broker F → Result (List (Ticket F)) × Broker F → Type 0
  WhenTaken ids b (ok ts, b') = Taken ids b ts b'
  WhenTaken ids b (err e, b') = Unit

  queue_of-set_queue :
      (id k : String) (q : List (Order F)) (b : Broker F)
      → queue_of (set_queue id q b).1 k ≡ (if id =ₛ k then q else queue_of b k)
  unfolding set_queue get_or
  queue_of-set_queue id k q b = ground (arith, get-put b.open_orders id k q)

  add_tickets :
      (id : String) (ids : List String) (q : List (Order F)) (b : Broker F)
      (out : Result (List (Ticket F)) × Broker F)
      → queue_of b id ≡ q
      → WhenTaken ids (set_queue id [] b).1 out
      → WhenTaken
          (id ∷ ids)
          b
          (continue (λ (others : List (Ticket F)). pure (tickets id q ++ others)) out)
  unfolding listed set_queue
  add_tickets id ids q b (ok ts, b') e v = record {
    portfolios = v.portfolios;
    split = λ k j. ground (
      arith,
      v.split k j,
      e,
      =ₛ_iff id k,
      queue_of-set_queue id k [] b,
      ticketed-tickets id q ts k j,
      drained (ordered q j) (ticketed ts k j) (waiting b' k j),
    );
    left = λ k. ground (arith, v.left k, queue_of-set_queue id k [] b);
  }
  add_tickets id ids q b (err x, b') e v = tt

  pub take_orders-Taken : (ids : List String) (b : Broker F) → WhenTaken ids b (take_orders ids b)
  unfolding take_orders listed get_or
  take_orders-Taken [] b = record {
    portfolios = refl;
    split = λ k j. zero_+ℤ (waiting b k j);
    left = λ k. refl;
  }
  take_orders-Taken (id ∷ ids) b = elim (Option-cases (get b.open_orders id)) [
    | inl e ↦ rw (e, the_queue) tt
    | inr (q, e) ↦
        rw (e, the_queue)
          (add_tickets id ids q b (take_orders ids (set_queue id [] b).1) (ground (arith, e))
            (take_orders-Taken ids (set_queue id [] b).1))
  ]
