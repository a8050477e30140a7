-- ===== src/Gateway/Delivery/Split/Tests.antt =====
-- The text of the source's own test, and a limit of 0.
use frankclaw.Prelude.{ℕ, Bool, ◌≡◌, refl, false, List, [], ◌∷◌, All, chars, nat_eqb, arith}
use frankclaw.Gateway.Delivery.Split.{split_text, trim, is_nil}
use frankclaw.Gateway.Delivery.Split.Words.{concat, visible}
use frankclaw.Gateway.Delivery.Split.Chunks.{Fits, split_text-Splits}

abbrev is_space : ℕ → Bool
is_space = nat_eqb 32

abbrev counting : List ℕ
counting = chars "one two three four five"

split_counting :
    split_text is_space counting 9 ≡ chars "one two" ∷ chars "three" ∷ chars "four five" ∷ []
unfolding split_text
split_counting = refl

no_limit_no_split : split_text is_space counting 0 ≡ counting ∷ []
unfolding split_text
no_limit_no_split = refl

counting_shown : is_nil (trim is_space counting) ≡ false
unfolding trim is_nil
counting_shown = refl

split_text-Splits_example :
    All (Fits 9) (split_text is_space counting 9)
    × (visible is_space (concat (split_text is_space counting 9)) ≡ visible is_space counting)
split_text-Splits_example = split_text-Splits is_space counting 9 (omega arith) counting_shown
