-- ===== src/Live/Decimal.antt =====
-- `str(n)` of a whole number that is not negative: its decimal digits.
pub mod Injective
use Prim.Native.String.{◌++◌}
use vm_quant_trader.Prelude.{ℕ, zero, suc, ◌+◌, ◌/◌, ◌%◌, String, ltb, if◌then◌else◌}

-- The digit `n`, for an `n` below ten.
unfoldable pub digit : ℕ → String
digit zero = "0"
digit (suc zero) = "1"
digit (suc (suc zero)) = "2"
digit (suc (suc (suc zero))) = "3"
digit (suc (suc (suc (suc zero)))) = "4"
digit (suc (suc (suc (suc (suc zero))))) = "5"
digit (suc (suc (suc (suc (suc (suc zero)))))) = "6"
digit (suc (suc (suc (suc (suc (suc (suc zero))))))) = "7"
digit (suc (suc (suc (suc (suc (suc (suc (suc zero)))))))) = "8"
digit _ = "9"

-- With fuel for the digits; `n` itself is enough.
unfoldable pub show_from : ℕ → ℕ → String
show_from zero n = digit n
show_from (suc f) n =
    let front = show_from f (n / 10) in if ltb n 10 then digit n else front ++ digit (n % 10)

unfoldable pub show : ℕ → String
unfolding show_from digit
show n = show_from n n
