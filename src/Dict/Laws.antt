-- ===== src/Dict/Laws.antt =====
-- What a dictionary answers after a write or a removal.
use vm_quant_trader.Prelude.{
  String, ◌≡◌, ◌≢◌, refl, false, none, some, [], ◌∷◌, arith, ◌=ₛ◌, =ₛ_iff, if◌then◌else◌,
}
use vm_quant_trader.Dict.{Dict, get, get_or, contains, put, remove}

module _ {ℓ} {V : Type ℓ} where
  -- No key is listed twice, as in every dictionary of Python.
  abbrev pub HasUniqueKeys : Dict V → Type 0
  HasUniqueKeys [] = Unit
  HasUniqueKeys ((j, v) ∷ d) = (contains d j ≡ false) × HasUniqueKeys d

  pub get-put :
      (d : Dict V) (k j : String) (v : V) → get (put d k v) j ≡ (if k =ₛ j then some v else get d j)
  unfolding get put
  get-put [] k j v = refl
  get-put ((i, w) ∷ d) k j v = ground (arith, =ₛ_iff k j, =ₛ_iff i k, =ₛ_iff i j, get-put d k j v)

  pub get-put_self : (d : Dict V) (k : String) (v : V) → get (put d k v) k ≡ some v
  get-put_self d k v = ground (arith, get-put d k k v, =ₛ_iff k k)

  pub get-put_ne : (d : Dict V) (k j : String) (v : V) → k ≢ j → get (put d k v) j ≡ get d j
  get-put_ne d k j v h = ground (arith, get-put d k j v, =ₛ_iff k j)

  pub get-remove_ne : (d : Dict V) (k j : String) → k ≢ j → get (remove d k) j ≡ get d j
  unfolding get remove
  get-remove_ne [] k j h = refl
  get-remove_ne ((i, w) ∷ d) k j h = ground (arith, =ₛ_iff i k, =ₛ_iff i j, get-remove_ne d k j h)

  pub get-remove_self : (d : Dict V) (k : String) → HasUniqueKeys d → get (remove d k) k ≡ none
  unfolding get remove contains
  get-remove_self [] k h = refl
  get-remove_self ((i, w) ∷ d) k h = ground (arith, =ₛ_iff i k, get-remove_self d k h.1)

  contains-put_ne :
      (d : Dict V) (k j : String) (v : V) → k ≢ j → contains (put d k v) j ≡ contains d j
  unfolding contains
  contains-put_ne d k j v h = ground (arith, get-put_ne d k j v h)

  pub put-HasUniqueKeys :
      (d : Dict V) (k : String) (v : V) → HasUniqueKeys d → HasUniqueKeys (put d k v)
  unfolding put contains get
  put-HasUniqueKeys [] k v h = (refl, tt)
  put-HasUniqueKeys ((i, w) ∷ d) k v h =
      ground (arith, =ₛ_iff i k, =ₛ_iff k i, get-put d k i v, put-HasUniqueKeys d k v h.1)

  pub remove-HasUniqueKeys :
      (d : Dict V) (k : String) → HasUniqueKeys d → HasUniqueKeys (remove d k)
  unfolding remove contains get
  remove-HasUniqueKeys [] k h = tt
  remove-HasUniqueKeys ((i, w) ∷ d) k h =
      ground (arith, =ₛ_iff i k, =ₛ_iff k i, get-remove_ne d k i, remove-HasUniqueKeys d k h.1)

  -- `d.get(k, default)` after a write.
  pub get_or-put :
      (d : Dict V) (k j : String) (v x : V)
      → get_or (put d k v) j x ≡ (if k =ₛ j then v else get_or d j x)
  unfolding get_or
  get_or-put d k j v x = ground (arith, get-put d k j v)

module _ {ℓ} {V : Type ℓ} where
  pub get-remove :
      (d : Dict V) (k j : String)
      → HasUniqueKeys d
      → get (remove d k) j ≡ (if k =ₛ j then none else get d j)
  get-remove d k j h = ground (arith, =ₛ_iff k j, get-remove_self d k h, get-remove_ne d k j)
