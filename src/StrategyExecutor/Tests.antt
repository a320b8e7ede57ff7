-- ===== src/StrategyExecutor/Tests.antt =====
-- A cycle whose strategy decides and whose broker fails, in both modes.
use vm_quant_trader.Prelude.{ℕ, ◌≡◌, refl, false, [], ◌∷◌, List}
use vm_quant_trader.Errors.{Exc, Method, ok, err, foreign}
use vm_quant_trader.Floats.Whole.{whole}
use vm_quant_trader.Messaging.Events.{TargetWeights, OrderFilled}
use vm_quant_trader.StrategyExecutor.Cycle.{decide_and_submit, promised, decide_and_submit-promised}

-- The world is a journal.
abbrev decides : ℕ → Method (List ℕ) (TargetWeights whole)
decides now w = (ok (record { dt = now; weights = [] }), 1 ∷ w)

abbrev hears : OrderFilled whole → Method (List ℕ) (Unit {0})
hears e w = (ok tt, w)

abbrev notes : Exc → List ℕ → List ℕ
notes e w = 404 ∷ w

abbrev breaks : TargetWeights whole → Method (List ℕ) (Unit {0})
breaks c w = (err (foreign "timeout"), 2 ∷ w)

decide_and_submit-promised_example :
    decide_and_submit decides hears notes breaks false 3 9 []
    ≡ promised decides hears notes breaks 9 []
decide_and_submit-promised_example =
    decide_and_submit-promised decides hears notes breaks false 2 9 []

nothing_traded : promised decides hears notes breaks 9 [] ≡ (ok false, 404 ∷ 2 ∷ 1 ∷ [])
unfolding promised
nothing_traded = refl
