-- ===== src/Errors.antt =====
-- Exceptions (vmtrader/errors.py, broker/live/guards.py, messaging/mailbox.py) as values, and
-- methods that may raise. What a method wrote before it raised stays written, so a method returns
-- its object beside the outcome.
pub mod Frame
use vm_quant_trader.Prelude.{String, Bool, true, false, if◌then◌else◌, ◌||◌}

-- Why a `ValueError`, `KeyError`, `TypeError` or `RuntimeError` is raised.
pub data Cause : Type 0 where
  none_event : Cause
  not_runnable : Cause
  negative_amount : Cause
  not_enough_cash : Cause
  earlier_timestamp : Cause
  price_not_positive : Cause
  wrong_asset : Cause
  duplicate_portfolio : Cause
  unknown_portfolio : Cause
  unknown_currency : Cause
  stops_itself : Cause
  duplicate_asset : Cause
  not_consuming : Cause
  executor_mode : Cause
  negative_funds : Cause
  no_price : Cause
  not_a_number : Cause
  buffer_out_of_range : Cause
  leverage_not_positive : Cause
  negative_weight : Cause

pub data Limit : Type 0 where
  order_value : Limit
  session_orders : Limit

pub data Exc : Type 0 where
  kill_switch_engaged : Exc
  trading_halted : String → Exc
  misrouted : Exc
  order_limit_exceeded : Limit → Exc
  mailbox_closed : Exc
  ledger_identity_conflict : Exc
  bad : Cause → Exc
  zero_division : Exc
  -- an exception of code outside the repository, by its text
  foreign : String → Exc

-- `isinstance(err, StopRequested)`
unfoldable pub is_stop_requested : Exc → Bool
is_stop_requested kill_switch_engaged = true
is_stop_requested (trading_halted r) = true
is_stop_requested _ = false

abbrev is_misrouted : Exc → Bool
is_misrouted misrouted = true
is_misrouted _ = false

-- `except ENDS_THE_CYCLE`
unfoldable pub ends_the_cycle : Exc → Bool
unfolding is_stop_requested
ends_the_cycle e = is_stop_requested e || is_misrouted e

pub data Result {ℓ} (A : Type ℓ) : Type ℓ where
  ok : A → Result A
  err : Exc → Result A

abbrev pub is_ok {ℓ} : {A : Type ℓ} → Result A → Bool
is_ok (ok a) = true
is_ok (err e) = false

-- A method of an object in `S`.
abbrev pub Method {ℓ κ} : Type ℓ → Type κ → Type (ℓ ⊔ κ)
Method S A = S → Result A × S

module _ {ℓ κ} {S : Type ℓ} {A : Type κ} where
  abbrev pub pure : A → Method S A
  pure a s = (ok a, s)

  abbrev pub raise : Exc → Method S A
  raise e s = (err e, s)

  abbrev pub gets : (S → A) → Method S A
  gets f s = (ok (f s), s)

  -- Whether the rest of a block runs.
  abbrev pub continue {ι} : {B : Type ι} → (A → Method S B) → Result A × S → Result B × S
  continue f (ok a, s) = f a s
  continue f (err e, s) = (err e, s)

infixl 5 ◌>>=◌ ◌>>◌
abbrev pub ◌>>=◌ {ℓ κ ι} :
    {S : Type ℓ} {A : Type κ} {B : Type ι} → Method S A → (A → Method S B) → Method S B
◌>>=◌ m f s = continue f (m s)

abbrev pub ◌>>◌ {ℓ κ ι} :
    {S : Type ℓ} {A : Type κ} {B : Type ι} → Method S A → Method S B → Method S B
m >> k = m >>= λ _. k

abbrev pub modify {ℓ} : {S : Type ℓ} → (S → S) → Method S (Unit {0})
modify f s = (ok tt, f s)

abbrev pub raise_if {ℓ} : {S : Type ℓ} → Bool → Exc → Method S (Unit {0})
raise_if b e s = (if b then err e else ok tt, s)
