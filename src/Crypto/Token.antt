-- ===== src/Crypto/Token.antt =====
-- `verify_token_eq` of crates/frankclaw-crypto/src/token.rs, over the bytes of the two texts.
pub mod Equality
mod Tests
use Prim.Native.Nat.{bit_or, bit_xor}
use frankclaw.Prelude.{ℕ, Bool, false, List, [], ◌∷◌, length, nat_eqb, not, if◌then◌else◌}

-- The loop over `a.iter().zip(b.iter())`; it ends with the shorter slice.
xor_diff : ℕ → List ℕ → List ℕ → ℕ
xor_diff diff (x ∷ xs) (y ∷ ys) = xor_diff (bit_or diff (bit_xor x y)) xs ys
xor_diff diff _ _ = diff

constant_time_eq : List ℕ → List ℕ → Bool
unfolding xor_diff
constant_time_eq a b =
    if not (nat_eqb (length a) (length b)) then false else nat_eqb (xor_diff 0 a b) 0

unfoldable pub verify_token_eq : List ℕ → List ℕ → Bool
unfolding constant_time_eq
verify_token_eq provided expected =
    if not (nat_eqb (length provided) (length expected))
    then false
    else constant_time_eq provided expected
