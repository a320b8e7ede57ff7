-- ===== src/Live/Collect/Shares.antt =====
-- The shares that the watermarks say were booked, of every asset.
use vm_quant_trader.Prelude.{
  ℕ, ◌-◌, ◌≤◌, ◌≡◌, ap, String, Bool, true, false, [], ◌∷◌, arith, if◌then◌else◌, ◌=ₛ◌, =ₛ_iff,
  Bool-cases, inl, inr,
}
use vm_quant_trader.Prelude.Int.{
  ℤ, pos_part, neg_part, pos, negsuc, neg, +ℤ_zero, zero_+ℤ, ◌+ℤ◌, ◌*ℤ◌, int_laws,
}
use vm_quant_trader.Floats.{Floats}
use vm_quant_trader.Dict.{Dict, get, get_or, put}
use vm_quant_trader.PositionHandler.Holdings.{moved}
use vm_quant_trader.Live.Broker.{Fill}
use vm_quant_trader.Live.Collect.{increment_txn}

-- The asset of an order, and whether it buys.
abbrev pub Terms : Type 0
Terms = String → String × Bool

abbrev pub signed : Bool → ℕ → ℤ
signed true n = pos n
signed false n = neg (pos n)

-- What `n` filled shares of the order `k` are in the asset `j`.
abbrev pub share : Terms → String → String → ℕ → ℤ
share terms k j n = let (symbol, buys) = terms k in if symbol =ₛ j then signed buys n else pos 0

-- The shares of an asset that the watermarks say were booked, of all orders.
unfoldable pub booked_shares : Terms → Dict ℕ → String → ℤ
booked_shares terms [] j = pos 0
booked_shares terms ((k, n) ∷ d) j = share terms k j n +ℤ booked_shares terms d j

swap : (a x c : ℤ) → a +ℤ x +ℤ c ≡ c +ℤ x +ℤ a
swap a x c = omega int_laws

under : (a x y s t : ℤ) → x +ℤ s ≡ y +ℤ t → a +ℤ x +ℤ s ≡ a +ℤ y +ℤ t
under a x y s t h = omega (int_laws, ap pos_part h, ap neg_part h)

pub booked_shares-put :
    (terms : Terms) (d : Dict ℕ) (k j : String) (n : ℕ)
    → booked_shares terms (put d k n) j +ℤ share terms k j (get_or d k 0)
      ≡ booked_shares terms d j +ℤ share terms k j n
unfolding booked_shares put get_or get
booked_shares-put terms [] k j n =
    ground (arith, zero_+ℤ (share terms k j n), +ℤ_zero (share terms k j n))
booked_shares-put terms ((i, m) ∷ d) k j n = elim (Bool-cases (i =ₛ k)) [
  | inl same ↦ ground (
    arith,
    same,
    =ₛ_iff i k,
    swap (share terms k j n) (booked_shares terms d j) (share terms k j m),
  )
  | inr other ↦ ground (
    arith,
    other,
    under (share terms i j m) (booked_shares terms (put d k n) j) (booked_shares terms d j)
        (share terms k j (get_or d k 0)) (share terms k j n) (booked_shares-put terms d k j n),
  )
]

-- A fill of one of these orders, for the portfolio `id`.
pub record Agrees {F : Floats} (terms : Terms) (id : String) (f : Fill F) : Type 0 where
  pub symbol : f.symbol ≡ (terms f.order_no).0
  pub direction : f.direction ≡ (if (terms f.order_no).1 then pos 1 else negsuc 0)
  pub portfolio : f.portfolio_id ≡ id

signed_increment :
    (buys : Bool) (already total : ℕ)
    → already ≤ total
    → (if buys then pos 1 else negsuc 0) *ℤ pos (total - already) +ℤ signed buys already
      ≡ signed buys total
unfolding ◌*ℤ◌ ◌+ℤ◌
signed_increment true already total h = ground (arith, h)
signed_increment false already total h = ground (arith, h)

-- What the transaction of an increment moves is the difference of two shares.
pub moved-share :
    {F : Floats} (terms : Terms) (f : Fill F) (already : ℕ) (charged : F.Num) (dt : ℕ) (j : String)
    (id : String)
    → Agrees terms id f
    → already ≤ f.cumulative_filled
    → moved (increment_txn f already charged dt) j +ℤ share terms f.order_no j already
      ≡ share terms f.order_no j f.cumulative_filled
unfolding increment_txn
moved-share terms f already charged dt j id agrees h = ground (
  arith,
  zero_+ℤ (pos 0),
  agrees.symbol,
  agrees.direction,
  signed_increment (terms f.order_no).1 already f.cumulative_filled h,
)

pub balance : (h m t t' sa sc : ℤ) → m +ℤ sa ≡ sc → t' +ℤ sa ≡ t +ℤ sc → h +ℤ m +ℤ t ≡ h +ℤ t'
balance h m t t' sa sc e e' =
    omega (int_laws, ap pos_part e, ap neg_part e, ap pos_part e', ap neg_part e')

pub telescope :
    (h h' h'' t t' t'' : ℤ) → h' +ℤ t ≡ h +ℤ t' → h'' +ℤ t' ≡ h' +ℤ t'' → h'' +ℤ t ≡ h +ℤ t''
telescope h h' h'' t t' t'' e e' =
    omega (int_laws, ap pos_part e, ap neg_part e, ap pos_part e', ap neg_part e')
