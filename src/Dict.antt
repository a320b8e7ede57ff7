-- ===== src/Dict.antt =====
-- Python's `dict` with text keys, in insertion order: writing a key that is there keeps its place.
pub mod Laws
use vm_quant_trader.Prelude.{
  String, Bool, Option, none, some, List, [], ◌∷◌, ◌=ₛ◌, if◌then◌else◌, is_some,
}

abbrev pub Dict {ℓ} : Type ℓ → Type ℓ
Dict V = List (String × V)

module _ {ℓ} {V : Type ℓ} where
  -- `d.get(k)`
  unfoldable pub get : Dict V → String → Option V
  get [] k = none
  get ((j, v) ∷ d) k = if j =ₛ k then some v else get d k

  -- `d.get(k, default)`
  unfoldable pub get_or : Dict V → String → V → V
  unfolding get
  get_or d k x = elim (get d k) [ none ↦ x | some v ↦ v ]

  -- `k in d`
  unfoldable pub contains : Dict V → String → Bool
  unfolding get
  contains d k = is_some (get d k)

  -- `d[k] = v`
  unfoldable pub put : Dict V → String → V → Dict V
  put [] k v = (k, v) ∷ []
  put ((j, w) ∷ d) k v = if j =ₛ k then (j, v) ∷ d else (j, w) ∷ put d k v

  -- `del d[k]`, `d.pop(k, None)`
  unfoldable pub remove : Dict V → String → Dict V
  remove [] k = []
  remove ((j, w) ∷ d) k = if j =ₛ k then d else (j, w) ∷ remove d k

  -- `list(d)`
  unfoldable pub keys : Dict V → List String
  keys [] = []
  keys ((j, w) ∷ d) = j ∷ keys d

  -- `list(d.values())`
  unfoldable pub values : Dict V → List V
  values [] = []
  values ((j, w) ∷ d) = w ∷ values d

  -- `INSERT OR IGNORE` into a table with this primary key
  unfoldable pub insert_or_ignore : Dict V → String → V → Dict V
  unfolding contains put
  insert_or_ignore d k v = if contains d k then d else put d k v

  put_all : List (String × V) → Dict V → Dict V
  put_all [] d = d
  put_all ((k, v) ∷ l) d = put_all l (put d k v)

  -- `dict(pairs)`: a later pair with the same key wins.
  unfoldable pub of_pairs : List (String × V) → Dict V
  unfolding put_all put
  of_pairs l = put_all l []
