-- ===== src/Errors/Frame.antt =====
-- What a method leaves alone: a relation of the object before and after, which blocks inherit.
use vm_quant_trader.Prelude.{◌≡◌, refl, true}
use vm_quant_trader.Errors.{Result, ok, err, is_ok, Method, continue, ◌>>=◌}

-- A relation that calls one after the other keep.
pub record IsFrame {S : Type 0} (R : S → S → Type 0) : Type 0 where
  pub same : (s : S) → R s s
  pub next : (s t u : S) → R s t → R t u → R s u

-- Whatever comes of the method, the object after it stands in the relation to the one before.
abbrev pub Respects {ℓ} : {S : Type 0} {A : Type ℓ} → (S → S → Type 0) → Method S A → Type 0
Respects R m = (s : _) → R s (m s).1

module _ {S : Type 0} (R : S → S → Type 0) (frame : IsFrame R) where
  pub Respects-continue {ℓ κ} :
      {A : Type ℓ} {B : Type κ} (s : S) (f : A → Method S B) (out : Result A × S)
      → R s out.1
      → ((a : A) → Respects R (f a))
      → R s (continue f out).1
  Respects-continue s f (ok a, t) h k = frame.next s t (f a t).1 h (k a t)
  Respects-continue s f (err e, t) h k = h

  pub Respects-bind {ℓ κ} :
      {A : Type ℓ} {B : Type κ} (m : Method S A) (f : A → Method S B)
      → Respects R m
      → ((a : A) → Respects R (f a))
      → Respects R (m >>= f)
  Respects-bind m f h k s = Respects-continue s f (m s) (h s) k

-- What a call that returns says of its first half.
pub record Returned {ℓ κ} {S : Type 0} {A : Type ℓ} {B : Type κ} (f : A → Method S B)
    (out : Result A × S) : Type (ℓ ⊔ κ) where
  pub value : A
  pub first : out ≡ (ok value, out.1)
  pub rest : continue f out ≡ f value out.1
  pub returns : is_ok (f value out.1).0 ≡ true

pub continue-Returned {ℓ κ} :
    {S : Type 0} {A : Type ℓ} {B : Type κ} (f : A → Method S B) (out : Result A × S)
    → is_ok (continue f out).0 ≡ true
    → Returned f out
continue-Returned f (ok a, t) h = record { value = a; first = refl; rest = refl; returns = h }
continue-Returned f (err e, t) h = cc

-- From a state with `P`, the method returns and leaves one.
abbrev pub Runs {ℓ κ} : {S : Type 0} {A : Type ℓ} → (S → Type κ) → Method S A → Type κ
Runs P m = (s : _) → P s → (is_ok (m s).0 ≡ true) × P (m s).1

module _ {κ} {S : Type 0} (P : S → Type κ) where
  pub Runs-continue {ℓ ι} :
      {A : Type ℓ} {B : Type ι} (f : A → Method S B) (out : Result A × S)
      → is_ok out.0 ≡ true
      → P out.1
      → ((a : A) → Runs P (f a))
      → (is_ok (continue f out).0 ≡ true) × P (continue f out).1
  Runs-continue f (ok a, t) returns h k = k a t h
  Runs-continue f (err e, t) returns h k = cc

  pub Runs-bind {ℓ ι} :
      {A : Type ℓ} {B : Type ι} (m : Method S A) (f : A → Method S B)
      → Runs P m
      → ((a : A) → Runs P (f a))
      → Runs P (m >>= f)
  Runs-bind m f h k s p = let (returns, q) = h s p in Runs-continue f (m s) returns q k
