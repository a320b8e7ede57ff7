-- ===== src/Live/Decimal/Injective.antt =====
-- A number can be read back from its digits, and no digit is a colon: what makes a key of the form
-- `'%s:%s'` stand for one pair only.
use Prim.Native.Char.{code}
use Prim.Native.String.{◌++◌ as append}
use text.Mathlib.TextEquality.{Char-path}
use text.Mathlib.TextLemmas.{nil-append, cons-append}
use mathlib.Core.Path.{ap₂}
use vm_quant_trader.Prelude.{
  ℕ, zero, suc, ◌+◌, ◌-◌, ◌*◌, ◌/◌, ◌%◌, ◌<◌, ◌≤◌, ◌≡◌, ◌≢◌, refl, ap, ltb→lt, sym, ◌∙◌, String,
  List, [], ◌∷◌, ◌++◌, arith, ltb, Bool-cases, inl, inr, All, All-append,
}
use vm_quant_trader.Live.Decimal.{digit, show_from, show}

-- The code points of a text.
abbrev codes : String → List ℕ
codes String.[] = []
codes (String.◌∷◌ c s) = code c ∷ codes s

codes-append : (s t : String) → codes (append s t) ≡ codes s ++ codes t
codes-append String.[] t = rw nil-append
codes-append (String.◌∷◌ c s) t = rw cons-append (ap (λ l. code c ∷ l) (codes-append s t))

codes-injective : (s t : String) → codes s ≡ codes t → s ≡ t
codes-injective String.[] String.[] h = refl
codes-injective String.[] (String.◌∷◌ d t) h = cc
codes-injective (String.◌∷◌ c s) String.[] h = cc
codes-injective (String.◌∷◌ c s) (String.◌∷◌ d t) h =
    ap₂ String.◌∷◌ (Char-path c d (cc h)) (codes-injective s t (cc h))

codes-digit : (n : ℕ) → n < 10 → codes (digit n) ≡ (48 + n) ∷ []
unfolding digit
codes-digit zero h = refl
codes-digit (suc zero) h = refl
codes-digit (suc (suc zero)) h = refl
codes-digit (suc (suc (suc zero))) h = refl
codes-digit (suc (suc (suc (suc zero)))) h = refl
codes-digit (suc (suc (suc (suc (suc zero))))) h = refl
codes-digit (suc (suc (suc (suc (suc (suc zero)))))) h = refl
codes-digit (suc (suc (suc (suc (suc (suc (suc zero))))))) h = refl
codes-digit (suc (suc (suc (suc (suc (suc (suc (suc zero)))))))) h = refl
codes-digit (suc (suc (suc (suc (suc (suc (suc (suc (suc zero))))))))) h = refl
codes-digit (suc (suc (suc (suc (suc (suc (suc (suc (suc (suc n)))))))))) h = absurd (omega arith)

-- The number that digits stand for, behind `a`.
value : ℕ → List ℕ → ℕ
value a [] = a
value a (c ∷ cs) = value (a * 10 + (c - 48)) cs

value-append : (a : ℕ) (xs ys : List ℕ) → value a (xs ++ ys) ≡ value (value a xs) ys
unfolding value
value-append a [] ys = refl
value-append a (x ∷ xs) ys = value-append (a * 10 + (x - 48)) xs ys

value-digit : (a n : ℕ) → n < 10 → value a (codes (digit n)) ≡ a * 10 + n
unfolding value
value-digit a n h = rw (codes-digit n h) (omega arith)

value-tens :
    (n : ℕ) (front : String)
    → value 0 (codes front) ≡ n / 10
    → value 0 (codes (append front (digit (n % 10)))) ≡ n
value-tens n front h =
    rw
      (
        codes-append front (digit (n % 10)),
        value-append 0 (codes front) (codes (digit (n % 10))),
        h,
      )
      (value-digit (n / 10) (n % 10) (omega arith) ∙ omega arith)

value-show_from : (f n : ℕ) → n ≤ f → value 0 (codes (show_from f n)) ≡ n
unfolding show_from
value-show_from zero n h = value-digit 0 n (omega arith) ∙ omega arith
value-show_from (suc f) n h = elim (Bool-cases (ltb n 10)) [
  | inl small ↦ rw small (value-digit 0 n (ltb→lt n 10 small) ∙ omega arith)
  | inr large ↦
      rw large (value-tens n (show_from f (n / 10)) (value-show_from f (n / 10) (ground arith)))
]

show-injective : (m n : ℕ) → codes (show m) ≡ codes (show n) → m ≡ n
unfolding show
show-injective m n h =
    sym (value-show_from m m (omega arith)) ∙ ap (value 0) h ∙ value-show_from n n (omega arith)

abbrev NoSign : List ℕ → Type 0
NoSign = All (λ c. (c ≢ b':') × (c ≢ b'_'))

digits-digit : (n : ℕ) → n < 10 → NoSign (codes (digit n))
digits-digit n h = rw (codes-digit n h) (omega arith)

digits-show_from : (f n : ℕ) → n ≤ f → NoSign (codes (show_from f n))
unfolding show_from
digits-show_from zero n h = digits-digit n (omega arith)
digits-show_from (suc f) n h = elim (Bool-cases (ltb n 10)) [
  | inl small ↦ rw small (digits-digit n (ltb→lt n 10 small))
  | inr large ↦
      rw (large, codes-append (show_from f (n / 10)) (digit (n % 10)))
        (All-append (λ c. (c ≢ b':') × (c ≢ b'_')) (codes (show_from f (n / 10)))
          (codes (digit (n % 10))) (digits-show_from f (n / 10) (ground arith))
          (digits-digit (n % 10) (omega arith)))
]

abbrev Without : ℕ → List ℕ → Type 0
Without s = All (λ c. c ≢ s)

no_colon : (xs : List ℕ) → NoSign xs → Without b':' xs
no_colon [] h = tt
no_colon (x ∷ xs) (first, h) = (first.0, no_colon xs h)

no_underscore : (xs : List ℕ) → NoSign xs → Without b'_' xs
no_underscore [] h = tt
no_underscore (x ∷ xs) (first, h) = (first.1, no_underscore xs h)

module _ (s : ℕ) where
  Without-inside : (xs ys : List ℕ) → ¬ Without s (xs ++ s ∷ ys)
  Without-inside [] ys h = h.0 refl
  Without-inside (x ∷ xs) ys h = Without-inside xs ys h.1

  -- The last separator parts a list in one way.
  split_unique :
      (xs ys ds es : List ℕ)
      → Without s ds
      → Without s es
      → xs ++ s ∷ ds ≡ ys ++ s ∷ es
      → (xs ≡ ys) × (ds ≡ es)
  split_unique [] [] ds es hd he h = (refl, cc)
  split_unique [] (y ∷ ys) ds es hd he h =
      let e : ds ≡ ys ++ s ∷ es = cc in absurd (Without-inside ys es (rw e at hd))
  split_unique (x ∷ xs) [] ds es hd he h =
      let e : es ≡ xs ++ s ∷ ds = cc in absurd (Without-inside xs ds (rw e at he))
  split_unique (x ∷ xs) (y ∷ ys) ds es hd he h =
      let (p, q) = split_unique xs ys ds es hd he (cc h) in (cc (h, p), q)

codes-key : (a t : String) → codes (append a (append ":" t)) ≡ codes a ++ b':' ∷ codes t
codes-key a t = rw (codes-append a (append ":" t), codes-append ":" t)

codes-lookback : (a t : String) → codes (append a (append "_" t)) ≡ codes a ++ b'_' ∷ codes t
codes-lookback a t = rw (codes-append a (append "_" t), codes-append "_" t)

-- `'%s:%s' % (a, m)` is another text than `'%s:%s' % (b, n)` unless `a` is `b` and `m` is `n`, even
-- where `a` has colons of its own.
pub colon_key-injective :
    (a b : String) (m n : ℕ)
    → append a (append ":" (show m)) ≡ append b (append ":" (show n))
    → (a ≡ b) × (m ≡ n)
unfolding show
colon_key-injective a b m n h =
    let (p, q) =
      split_unique b':' (codes a) (codes b) (codes (show m)) (codes (show n))
        (no_colon _ (digits-show_from m m (omega arith)))
        (no_colon _ (digits-show_from n n (omega arith)))
        (sym (codes-key a (show m)) ∙ ap codes h ∙ codes-key b (show n)) in
    (codes-injective a b p, show-injective m n q)

-- The same of `'%s_%s' % (a, m)`.
pub underscore_key-injective :
    (a b : String) (m n : ℕ)
    → append a (append "_" (show m)) ≡ append b (append "_" (show n))
    → (a ≡ b) × (m ≡ n)
unfolding show
underscore_key-injective a b m n h =
    let (p, q) =
      split_unique b'_' (codes a) (codes b) (codes (show m)) (codes (show n))
        (no_underscore _ (digits-show_from m m (omega arith)))
        (no_underscore _ (digits-show_from n n (omega arith)))
        (sym (codes-lookback a (show m)) ∙ ap codes h ∙ codes-lookback b (show n)) in
    (codes-injective a b p, show-injective m n q)
