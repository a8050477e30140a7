-- ===== src/Prelude/Show.antt =====
-- Numbers in messages: `{}` of an unsigned integer.
use Prim.Native.Nat.{ℕ, zero, suc, ◌/◌, ◌%◌}
use Prim.Native.String.{String, ◌++◌}
use frankclaw.Prelude.Tests.{ltb, if◌then◌else◌}

digit : ℕ → String
digit zero = "0"
digit (suc zero) = "1"
digit (suc (suc zero)) = "2"
digit (suc (suc (suc zero))) = "3"
digit (suc (suc (suc (suc zero)))) = "4"
digit (suc (suc (suc (suc (suc zero))))) = "5"
digit (suc (suc (suc (suc (suc (suc zero)))))) = "6"
digit (suc (suc (suc (suc (suc (suc (suc zero))))))) = "7"
digit (suc (suc (suc (suc (suc (suc (suc (suc zero)))))))) = "8"
digit _ = "9"

-- The digits of `n` in front of `text`; a number has no more digits than its value and one.
digits : ℕ → ℕ → String → String
digits zero n text = text
digits (suc fuel) n text =
    let rest = digits fuel (n / 10) (digit (n % 10) ++ text) in
    if ltb n 10 then digit n ++ text else rest

unfoldable pub show : ℕ → String
unfolding digits digit
show n = digits (suc n) n ""
