-- ===== src/Crypto/Token/Tests.antt =====
-- The token comparison at concrete byte strings.
use frankclaw.Prelude.{◌≡◌, ◌↔◌, refl, true, false, List, [], ◌∷◌, ℕ, arith}
use frankclaw.Crypto.Token.{verify_token_eq}
use frankclaw.Crypto.Token.Equality.{verify_token_eq_iff}

abbrev secret : List ℕ
secret = 115 ∷ 51 ∷ 99 ∷ []

abbrev guess : List ℕ
guess = 115 ∷ 51 ∷ 100 ∷ []

guess_refused : verify_token_eq guess secret ≡ false
unfolding verify_token_eq
guess_refused = refl

verify_token_eq_iff_example : (verify_token_eq guess secret ≡ true) ↔ (guess ≡ secret)
verify_token_eq_iff_example = verify_token_eq_iff guess secret (omega arith) (omega arith)
