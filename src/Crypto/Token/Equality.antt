-- ===== src/Crypto/Token/Equality.antt =====
-- The constant-time comparison of crates/frankclaw-crypto/src/token.rs decides equality of bytes.
use Prim.Native.Nat.{bit_or, bit_xor}
use frankclaw.Prelude.{
  ℕ, zero, suc, ◌<◌, ◌≡◌, ◌↔◌, refl, Bool, true, false, ◌&&◌, List, [], ◌∷◌, arith, length, nat_eqb,
  not, All, ltb,
}
use frankclaw.Crypto.Token.{xor_diff, verify_token_eq}

abbrev pub IsBytes : List ℕ → Type 0
IsBytes = All (λ b. b < 256)

-- A test passes at every number under a bound.
passes : (ℕ → Bool) → ℕ → Bool
passes test zero = true
passes test (suc bound) = passes test bound && test bound

passes-at : (test : ℕ → Bool) (bound x : ℕ) → x < bound → passes test bound ≡ true → test x ≡ true
unfolding passes
passes-at test zero x lt h = absurd (omega arith)
passes-at test (suc bound) x lt h = ground (arith, passes-at test bound x)

bool_eqb : Bool → Bool → Bool
bool_eqb true b = b
bool_eqb false b = not b

-- What the loop needs of two bytes: `^` is 0 exactly on equal bytes, `|` exactly on zeros.
pair_ok : ℕ → ℕ → Bool
unfolding bool_eqb
pair_ok x y =
    bool_eqb (nat_eqb (bit_xor x y) 0) (nat_eqb x y)
    && ltb (bit_xor x y) 256
    && bool_eqb (nat_eqb (bit_or x y) 0) (nat_eqb x 0 && nat_eqb y 0)
    && ltb (bit_or x y) 256

pair_row : ℕ → Bool
pair_row x = passes (pair_ok x) 256

pair_table : passes pair_row 256 ≡ true
unfolding passes pair_row pair_ok
pair_table = refl

pair_lem : (x y : ℕ) → x < 256 → y < 256 → pair_ok x y ≡ true
pair_lem x y hx hy =
    passes-at (pair_ok x) 256 y hy (unfold pair_row in passes-at pair_row 256 x hx pair_table)

xor-lt : (x y : ℕ) → x < 256 → y < 256 → bit_xor x y < 256
unfolding pair_ok
xor-lt x y hx hy = ground (arith, pair_lem x y hx hy)

xor-eq-zero : (x y : ℕ) → x < 256 → y < 256 → (bit_xor x y ≡ 0) ↔ (x ≡ y)
unfolding pair_ok
xor-eq-zero x y hx hy = ground (arith, pair_lem x y hx hy)

or-lt : (x y : ℕ) → x < 256 → y < 256 → bit_or x y < 256
unfolding pair_ok
or-lt x y hx hy = ground (arith, pair_lem x y hx hy)

or-eq-zero : (x y : ℕ) → x < 256 → y < 256 → (bit_or x y ≡ 0) ↔ ((x ≡ 0) × (y ≡ 0))
unfolding pair_ok
or-eq-zero x y hx hy = ground (arith, pair_lem x y hx hy)

xor_diff-eq-zero :
    (diff : ℕ) (a b : List ℕ)
    → diff < 256
    → IsBytes a
    → IsBytes b
    → length a ≡ length b
    → (xor_diff diff a b ≡ 0) ↔ ((diff ≡ 0) × (a ≡ b))
unfolding xor_diff
xor_diff-eq-zero diff [] [] hd ha hb e = ground arith
xor_diff-eq-zero diff [] (y ∷ ys) hd ha hb e = absurd (omega arith)
xor_diff-eq-zero diff (x ∷ xs) [] hd ha hb e = absurd (omega arith)
xor_diff-eq-zero diff (x ∷ xs) (y ∷ ys) hd ha hb e = ground (
  arith,
  xor-lt x y,
  xor-eq-zero x y,
  or-lt diff (bit_xor x y),
  or-eq-zero diff (bit_xor x y),
  xor_diff-eq-zero (bit_or diff (bit_xor x y)) xs ys,
)

-- On byte strings the constant-time test is true exactly when they are equal, for lengths that agree
-- and for lengths that do not.
pub verify_token_eq_iff :
    (provided expected : List ℕ)
    → IsBytes provided
    → IsBytes expected
    → (verify_token_eq provided expected ≡ true) ↔ (provided ≡ expected)
unfolding verify_token_eq
verify_token_eq_iff provided expected hp he = ground (arith, xor_diff-eq-zero 0 provided expected)
