-- ===== src/Signals/Windows.antt =====
-- What the buffers hold: the latest prices of each asset, as many as each lookback asks for.
use vm_quant_trader.Prelude.{
  ℕ, ◌≤◌, ◌<◌, ◌≡◌, ◌≢◌, is_some, refl, sym, ap, ◌∙◌, String, true, false, Option, none, some, List,
  [], ◌∷◌, ◌++◌, append-nil, append_assoc, ltb, length, length-append, if◌then◌else◌, arith,
  Bool-cases, inl, inr, All,
}
use vm_quant_trader.Errors.{Method, Result, continue, foreign, ok, err, pure, ◌>>◌}
use vm_quant_trader.Floats.{Floats, zero_num}
use vm_quant_trader.Dict.{Dict, get, contains, put}
use vm_quant_trader.Dict.Laws.{get-put_self, get-put_ne}
use vm_quant_trader.Live.Decimal.Injective.{underscore_key-injective}
use vm_quant_trader.Signals.{
  Deque, bounded, AssetPriceBuffers, asset_lookback_key, push, create_single_asset, push_all,
  append, push_on, with_buffers,
}

-- The last `n` of a list.
unfoldable pub window {ℓ} : {A : Type ℓ} → ℕ → List A → List A
window n [] = []
window n (x ∷ xs) = if ltb n (length (x ∷ xs)) then window n xs else x ∷ xs

window_whole {ℓ} : {A : Type ℓ} (n : ℕ) (xs : List A) → length xs ≤ n → window n xs ≡ xs
unfolding window
window_whole n [] h = refl
window_whole n (x ∷ xs) h = ground (arith, h)

-- Sliding a window on by one item.
bounded-window {ℓ} :
    {A : Type ℓ} (n : ℕ) (xs : List A) (x : A)
    → bounded n (window n xs ++ x ∷ []) ≡ window n (xs ++ x ∷ [])
unfolding window
bounded-window n [] x = refl
bounded-window n (y ∷ xs) x = elim (Bool-cases (ltb n (length (y ∷ xs)))) [
  | inl long ↦
      let longer : ltb n (length (y ∷ (xs ++ x ∷ []))) ≡ true =
        ground (arith, long, length-append xs (x ∷ [])) in
      rw (long, longer) (bounded-window n xs x)
  | inr short ↦ elim (Bool-cases (ltb n (length (y ∷ (xs ++ x ∷ []))))) [
    | inl over ↦
        rw (short, over)
          (sym (window_whole n (xs ++ x ∷ []) (ground (arith, short, length-append xs (x ∷ [])))))
    | inr under ↦ rw (short, under) refl
  ]
]

key_of_other_asset :
    (a b : String) (m n : ℕ) → a ≢ b → asset_lookback_key a m ≢ asset_lookback_key b n
unfolding asset_lookback_key
key_of_other_asset a b m n h e = h (underscore_key-injective a b m n e).0

key_of_other_lookback :
    (a : String) (m n : ℕ) → m ≢ n → asset_lookback_key a m ≢ asset_lookback_key a n
unfolding asset_lookback_key
key_of_other_lookback a m n h e = h (underscore_key-injective a a m n e).1

-- No lookback is listed twice.
abbrev pub IsDistinct : List ℕ → Type 0
IsDistinct [] = Unit
IsDistinct (l ∷ ls) = All (λ m. l ≢ m) ls × IsDistinct ls

flipped : (l : ℕ) (ls : List ℕ) → All (λ m. l ≢ m) ls → All (λ m. m ≢ l) ls
flipped l [] h = tt
flipped l (m ∷ ls) (first, h) = ((λ e. first (sym e)), flipped l ls h)

module _ {F : Floats} (asset : String) where
  -- The buffer of each of these lookbacks holds its window of the prices.
  abbrev pub Tracks : Dict (Deque F) → List F.Num → List ℕ → Type 0
  Tracks d xs =
      All (λ l.
        get d (asset_lookback_key asset l) ≡ some (record { maxlen = l; items = window l xs }))

  Tracks-put :
      (d : Dict (Deque F)) (xs : List F.Num) (l : ℕ) (q : Deque F) (ls : List ℕ)
      → All (λ m. l ≢ m) ls
      → Tracks d xs ls
      → Tracks (put d (asset_lookback_key asset l) q) xs ls
  Tracks-put d xs l q [] h v = tt
  Tracks-put d xs l q (m ∷ ls) (new, h) (first, v) = (
    get-put_ne d (asset_lookback_key asset l) (asset_lookback_key asset m) q
          (key_of_other_lookback asset l m new)
        ∙ first,
    Tracks-put d xs l q ls h v,
  )

  -- What a loop of pushes does: it returns, slides these windows, and leaves the other buffers alone.
  record Slid (price : F.Num) (xs : List F.Num) (ls : List ℕ) (d : Dict (Deque F))
      (out : Result (Unit {0}) × Dict (Deque F)) : Type 0 where
    returns : out.0 ≡ ok tt
    windows : Tracks out.1 (xs ++ price ∷ []) ls
    lookbacks :
        (m : ℕ)
        → All (λ l. l ≢ m) ls
        → get out.1 (asset_lookback_key asset m) ≡ get d (asset_lookback_key asset m)
    others :
        (other : String) (m : ℕ)
        → asset ≢ other
        → get out.1 (asset_lookback_key other m) ≡ get d (asset_lookback_key other m)

  push_all_step :
      (price : F.Num) (l : ℕ) (ls : List ℕ) (d : Dict (Deque F)) (q : Deque F)
      → get d (asset_lookback_key asset l) ≡ some q
      → push_all asset price (l ∷ ls) d
        ≡ push_all asset price ls (put d (asset_lookback_key asset l) (push price q))
  unfolding push_all
  push_all_step price l ls d q e =
      ap
        (λ (o : Option (Deque F)). elim o as (λ _. Result (Unit {0}) × Dict (Deque F)) [
          | none ↦ (err (foreign "KeyError"), d)
          | some q' ↦ push_all asset price ls (put d (asset_lookback_key asset l) (push price q'))
        ])
        e

  push_all-Slid :
      (price : F.Num) (xs : List F.Num) (ls : List ℕ) (d : Dict (Deque F))
      → IsDistinct ls
      → Tracks d xs ls
      → Slid price xs ls d (push_all asset price ls d)
  unfolding push_all push
  push_all-Slid price xs [] d h v = record {
    returns = refl;
    windows = tt;
    lookbacks = λ m e. refl;
    others = λ other m e. refl;
  }
  push_all-Slid price xs (l ∷ ls) d (new, h) (first, v) =
      let k = asset_lookback_key asset l in
      let q : Deque F = push price (record { maxlen = l; items = window l xs }) in
      let rest = push_all-Slid price xs ls (put d k q) h (Tracks-put d xs l q ls new v) in
      let new_from : All (λ m. m ≢ l) ls = flipped l ls new in
      rw (push_all_step price l ls d (record { maxlen = l; items = window l xs }) first) (record {
        returns = rest.returns;
        windows = (
          rest.lookbacks l new_from
              ∙ get-put_self d k q
              ∙ ap (λ (items : List F.Num). some (record { maxlen = l; items = items }))
                  (bounded-window l xs price),
          rest.windows,
        );
        lookbacks = λ m (e, es).
            rest.lookbacks m es
            ∙ get-put_ne d k (asset_lookback_key asset m) q (key_of_other_lookback asset l m e);
        others = λ other m e.
            rest.others other m e
            ∙ get-put_ne d k (asset_lookback_key other m) q (key_of_other_asset asset other l m e);
      })

  with_buffers_tracked :
      (xs : List F.Num) (ls : List ℕ) (d : Dict (Deque F))
      → 0 < length ls
      → Tracks d xs ls
      → with_buffers asset ls d ≡ ok d
  unfolding with_buffers contains
  with_buffers_tracked xs [] d h v = ground (arith, h)
  with_buffers_tracked xs (l ∷ ls) d h (first, v) =
      ap
        (λ (o : Option (Deque F)).
          ok (if is_some o then d else create_single_asset asset (l ∷ ls) d))
        first

  -- The prices one after the other, as a warm-up appends them.
  unfoldable pub append_each : List F.Num → Method (AssetPriceBuffers F) (Unit {0})
  unfolding append
  append_each [] = pure tt
  append_each (price ∷ prices) = do append asset price; append_each prices

  -- That the buffers are in step with the prices, and what they hold for other assets.
  pub record InStep (xs : List F.Num) (b b' : AssetPriceBuffers F) : Type 0 where
    pub windows : Tracks b'.prices xs b.lookbacks
    pub lookbacks : b'.lookbacks ≡ b.lookbacks
    pub others :
        (other : String) (m : ℕ)
        → asset ≢ other
        → get b'.prices (asset_lookback_key other m) ≡ get b.prices (asset_lookback_key other m)

  append-InStep :
      (price : F.Num) (xs : List F.Num) (b : AssetPriceBuffers F)
      → 0 < length b.lookbacks
      → IsDistinct b.lookbacks
      → F.le price (zero_num F) ≡ false
      → Tracks b.prices xs b.lookbacks
      → ((append asset price b).0 ≡ ok tt) × InStep (xs ++ price ∷ []) b (append asset price b).1
  unfolding append push_on
  append-InStep price xs b some_lookback distinct positive v =
      let slid = push_all-Slid price xs b.lookbacks b.prices distinct v in
      rw (positive, with_buffers_tracked xs b.lookbacks b.prices some_lookback v)
        (slid.returns, record { windows = slid.windows; lookbacks = refl; others = slid.others })

  after_ok :
      (prices : List F.Num) (out : Result (Unit {0}) × AssetPriceBuffers F)
      → out.0 ≡ ok tt
      → continue (λ _. append_each prices) out ≡ append_each prices out.1
  after_ok prices (ok x, b) e = refl
  after_ok prices (err x, b) e = cc

  -- Any number of prices above zero, appended to an asset whose buffers hold the windows of the prices
  -- so far, for lookbacks of which there is at least one and none is listed twice: every append returns,
  -- each buffer of the asset then holds the latest prices, as many as its lookback and in order, and
  -- the buffers of every other asset are as they were.
  pub append_each-InStep :
      (prices xs : List F.Num) (b : AssetPriceBuffers F)
      → 0 < length b.lookbacks
      → IsDistinct b.lookbacks
      → All (λ price. F.le price (zero_num F) ≡ false) prices
      → Tracks b.prices xs b.lookbacks
      → let (r, b') = append_each prices b in (r ≡ ok tt) × InStep (xs ++ prices) b b'
  unfolding append_each
  append_each-InStep [] xs b some_lookback distinct positive v = (
    refl,
    record { windows = rw (append-nil xs) v; lookbacks = refl; others = λ other m e. refl },
  )
  append_each-InStep (price ∷ prices) xs b some_lookback distinct (first, positive) v =
      let (returns, step) = append-InStep price xs b some_lookback distinct first v in
      let b1 = (append asset price b).1 in
      let (all_return, rest) =
        append_each-InStep prices (xs ++ price ∷ []) b1 (rw step.lookbacks some_lookback)
          (rw step.lookbacks distinct) positive (rw step.lookbacks step.windows) in
      rw (after_ok prices (append asset price b) returns, sym (append_assoc xs (price ∷ []) prices))
        (
          all_return,
          record {
            windows = rw step.lookbacks at rest.windows;
            lookbacks = rest.lookbacks ∙ step.lookbacks;
            others = λ other m e. rest.others other m e ∙ step.others other m e;
          },
        )
