-- ===== src/Rebalance/Sized.antt =====
-- What the sizer sizes: exactly the assets of the weights, each once, and it changes nothing.
use mathlib.Core.Path.{subst}
use vm_quant_trader.Prelude.{
  ℕ, ◌≡◌, refl, ◌∙◌, String, Bool, List, [], ◌∷◌, arith, ◌||◌, ap, Bool-cases, inl, inr, ◌⊎◌,
}
use vm_quant_trader.Prelude.Int.{ℤ}
use vm_quant_trader.Errors.{Result, ok, err, continue, pure, ◌>>=◌}
use vm_quant_trader.Floats.{Floats, zero_num}
use vm_quant_trader.Dict.{Dict, get, contains, put, values}
use vm_quant_trader.Dict.Laws.{HasUniqueKeys, put-HasUniqueKeys}
use vm_quant_trader.Portfolio.{HoldingRow}
use vm_quant_trader.Simulated.Market.{Market}
use vm_quant_trader.Simulated.Broker.{Broker, get_portfolio_as_dict, get_portfolio_total_equity}
use vm_quant_trader.Rebalance.Sizer.{
  OrderSizer, dollar_weighted, long_short, sorted_items, rescaled, normalise_weights, size_asset,
  size_assets, size_weights, size, quantities, sum_from, absolute_sum_from, any_negative,
  investable,
}
use vm_quant_trader.Rebalance.Covered.{contains-put, contains-sorted_items, contains-rescaled}

module _ {F : Floats} where
  -- A normalisation keeps the weights, or rescales each of them.
  rescaled_or_same :
      (sizer : OrderSizer F) (weights normalised : Dict F.Num)
      → normalise_weights sizer weights ≡ ok normalised
      → (normalised ≡ weights) ⊎ ((f : F.Num → F.Num) × (normalised ≡ rescaled f weights))
  unfolding normalise_weights
  rescaled_or_same (dollar_weighted buffer) weights normalised e =
      let total = sum_from F (zero_num F) (values weights) in
      elim (Bool-cases (any_negative F (values weights))) [
        | inl negative ↦ ground (arith, negative, e)
        | inr allowed ↦ elim (Bool-cases (F.is_close_to_zero total)) [
          | inl zero_sum ↦ inl (ground (arith, allowed, zero_sum, e))
          | inr positive ↦ inr ((λ w. F.div w total), ground (arith, allowed, positive, e))
        ]
      ]
  rescaled_or_same (long_short leverage) weights normalised e =
      let exposure = absolute_sum_from F (zero_num F) (values weights) in
      elim (Bool-cases (F.is_close_to_zero exposure)) [
        | inl zero_sum ↦ inl (ground (arith, zero_sum, e))
        | inr positive ↦ inr ((λ w. F.mul w (F.div leverage exposure)), ground (arith, positive, e))
      ]

  contains-normalise_weights :
      (sizer : OrderSizer F) (weights normalised : Dict F.Num) (j : String)
      → normalise_weights sizer weights ≡ ok normalised
      → contains normalised j ≡ contains weights j
  contains-normalise_weights sizer weights normalised j e =
      elim (rescaled_or_same sizer weights normalised e) [
        | inl same ↦ ap (λ (d : Dict F.Num). contains d j) same
        | inr (f, same) ↦ ap (λ (d : Dict F.Num). contains d j) same ∙ contains-rescaled f weights j
      ]

module _ {F : Floats} (market : Market F) (sizer : OrderSizer F) (dt : ℕ) where
  -- A sized target: the broker is untouched, the target has these assets and none twice.
  pub record Sized (has : String → Bool) (b : Broker F) (target : Dict ℤ) (b' : Broker F)
      : Type 0 where
    pub same : b' ≡ b
    pub unique : HasUniqueKeys target
    pub assets : (j : String) → contains target j ≡ has j

  abbrev pub WhenSized : (String → Bool) → Broker F → Result (Dict ℤ) × Broker F → Type 0
  WhenSized has b (ok target, b') = Sized has b target b'
  WhenSized has b (err e, b') = Unit

  same-size_asset :
      (equity : F.Num) (current : Dict ℤ) (asset : String) (weight : F.Num) (b : Broker F)
      → (size_asset market sizer dt equity current asset weight b).1 ≡ b
  unfolding size_asset
  same-size_asset equity current asset weight b = ground arith

  sized_on :
      (has has' : String → Bool) (b c : Broker F) (out : Result (Dict ℤ) × Broker F)
      → c ≡ b
      → ((j : String) → has j ≡ has' j)
      → WhenSized has c out
      → WhenSized has' b out
  sized_on has has' b c (ok target, d) e h v = record {
    same = v.same ∙ e;
    unique = v.unique;
    assets = λ j. v.assets j ∙ h j;
  }
  sized_on has has' b c (err x, d) e h v = tt

  regrouped :
      (items : List (String × F.Num)) (target : Dict ℤ) (asset : String) (weight : F.Num) (q : ℤ)
      (j : String)
      → (contains items j || contains (put target asset q) j)
        ≡ (contains ((asset, weight) ∷ items) j || contains target j)
  unfolding contains get
  regrouped items target asset weight q j = ground (arith, contains-put target asset j q)

  after_asset :
      (equity : F.Num) (current : Dict ℤ) (asset : String) (weight : F.Num)
      (items : List (String × F.Num)) (target : Dict ℤ) (b : Broker F) (out : Result ℤ × Broker F)
      → out.1 ≡ b
      → ((q : ℤ) (c : Broker F)
          → WhenSized
              (λ j. contains items j || contains (put target asset q) j)
              c
              (size_assets market sizer dt equity current items (put target asset q) c))
      → WhenSized
          (λ j. contains ((asset, weight) ∷ items) j || contains target j)
          b
          (continue
            (λ (q : ℤ). size_assets market sizer dt equity current items (put target asset q))
            out)
  after_asset equity current asset weight items target b (ok q, c) e rest =
      sized_on _ _ b c (size_assets market sizer dt equity current items (put target asset q) c) e
        (regrouped items target asset weight q) (rest q c)
  after_asset equity current asset weight items target b (err x, c) e rest = tt

  size_assets-Sized :
      (equity : F.Num) (current : Dict ℤ) (items : List (String × F.Num)) (target : Dict ℤ)
      (b : Broker F)
      → HasUniqueKeys target
      → WhenSized
          (λ j. contains items j || contains target j)
          b
          (size_assets market sizer dt equity current items target b)
  unfolding size_assets contains get
  size_assets-Sized equity current [] target b unique = record {
    same = refl;
    unique = unique;
    assets = λ j. refl;
  }
  size_assets-Sized equity current ((asset, weight) ∷ items) target b unique =
      after_asset equity current asset weight items target b
        (size_asset market sizer dt equity current asset weight b)
        (same-size_asset equity current asset weight b)
        (λ q. λ c.
          size_assets-Sized equity current items (put target asset q) c
            (put-HasUniqueKeys target asset q unique))

  after_portfolio :
      (equity : F.Num) (weights normalised : Dict F.Num) (b : Broker F)
      (out : Result (Dict (HoldingRow F)) × Broker F)
      → out.1 ≡ b
      → ((j : String) → contains normalised j ≡ contains weights j)
      → WhenSized (contains weights) b (
          continue
            (λ (current : Dict (HoldingRow F)).
              size_assets market sizer dt equity (quantities current) (sorted_items normalised) [])
            out)
  unfolding contains get
  after_portfolio equity weights normalised b (ok current, c) e same =
      sized_on _ (contains weights) b c
        (size_assets market sizer dt equity (quantities current) (sorted_items normalised) [] c) e
        (λ j. ground (arith, contains-sorted_items normalised j, same j))
        (size_assets-Sized equity (quantities current) (sorted_items normalised) [] c tt)
  after_portfolio equity weights normalised b (err x, c) e same = tt

  same-get_portfolio_as_dict : (id : String) (b : Broker F) → (get_portfolio_as_dict id b).1 ≡ b
  unfolding get_portfolio_as_dict
  same-get_portfolio_as_dict id b = ground arith

  size_weights-Sized :
      (id : String) (total : F.Num) (weights : Dict F.Num) (b : Broker F)
      → WhenSized (contains weights) b (size_weights market sizer dt id total weights b)
  unfolding size_weights
  size_weights-Sized id total weights b = normalised (normalise_weights sizer weights) refl
    where
      normalised :
          (r : Result (Dict F.Num))
          → normalise_weights sizer weights ≡ r
          → WhenSized (contains weights) b (
              continue
                (λ (normal : Dict F.Num).
                  get_portfolio_as_dict id >>= λ (current : Dict (HoldingRow F)).
                  size_assets market sizer dt
                    (investable sizer total)
                    (quantities current)
                    (sorted_items normal)
                    [])
                (r, b))
      normalised (ok normal) e =
          after_portfolio (investable sizer total) weights normal b (get_portfolio_as_dict id b)
            (same-get_portfolio_as_dict id b)
            (λ j. contains-normalise_weights sizer weights normal j e)
      normalised (err x) e = tt

  same-get_portfolio_total_equity :
      (id : String) (b : Broker F) → (get_portfolio_total_equity id b).1 ≡ b
  unfolding get_portfolio_total_equity
  same-get_portfolio_total_equity id b = ground arith

  after_equity :
      (id : String) (weights : Dict F.Num) (b : Broker F) (out : Result F.Num × Broker F)
      → out.1 ≡ b
      → WhenSized
          (contains weights)
          b
          (continue (λ (total : F.Num). size_weights market sizer dt id total weights) out)
  after_equity id weights b (ok total, c) e =
      sized_on (contains weights) (contains weights) b c
        (size_weights market sizer dt id total weights c) e (λ j. refl)
        (size_weights-Sized id total weights c)
  after_equity id weights b (err x, c) e = tt

  nothing_sized :
      (b : Broker F) (out : Result F.Num × Broker F)
      → out.1 ≡ b
      → WhenSized (contains {V = F.Num} []) b (continue (λ (total : F.Num). pure []) out)
  unfolding contains get
  nothing_sized b (ok total, c) e = record { same = e; unique = tt; assets = λ j. refl }
  nothing_sized b (err x, c) e = tt

  -- Sizing leaves the broker as it is, and a target that it gives has the assets of the weights and
  -- each of them once.
  pub size-Sized :
      (id : String) (weights : Dict F.Num) (b : Broker F)
      → WhenSized (contains weights) b (size market sizer dt id weights b)
  unfolding size
  size-Sized id [] b =
      nothing_sized b (get_portfolio_total_equity id b) (same-get_portfolio_total_equity id b)
  size-Sized id (w ∷ weights) b =
      after_equity id (w ∷ weights) b (get_portfolio_total_equity id b)
        (same-get_portfolio_total_equity id b)

  pub of_result-Sized :
      (has : String → Bool) (b : Broker F) (target : Dict ℤ) (out : Result (Dict ℤ) × Broker F)
      → WhenSized has b out
      → out.0 ≡ ok target
      → Sized has b target out.1
  of_result-Sized has b target (ok t, c) v e =
      subst (λ (r : Result (Dict ℤ)). WhenSized has b (r, c)) e v
  of_result-Sized has b target (err x, c) v e = cc
