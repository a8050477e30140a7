-- ===== src/Prelude/Text.antt =====
-- Texts as the lists of their code points: search and case, as `str` has them.
use Prim.Native.Nat.{ℕ, ◌+◌}
use Prim.Native.Char.{code}
use Prim.Native.String.{String}
use mathlib.Core.Bool.{Bool, true, false, ◌&&◌, ◌||◌}
use mathlib.Core.List.{List, [], ◌∷◌, ◌++◌}
use frankclaw.Prelude.Tests.{leb, nat_eqb, if◌then◌else◌}

-- `chars()`.
abbrev pub chars : String → List ℕ
chars String.[] = []
chars (String.◌∷◌ c s) = code c ∷ chars s

-- `starts_with`.
unfoldable pub starts_with : List ℕ → List ℕ → Bool
starts_with [] text = true
starts_with (p ∷ ps) [] = false
starts_with (p ∷ ps) (c ∷ cs) = nat_eqb p c && starts_with ps cs

-- `text.contains(pattern)`.
unfoldable pub contains : List ℕ → List ℕ → Bool
unfolding starts_with
contains pattern [] = starts_with pattern []
contains pattern (c ∷ cs) = starts_with pattern (c ∷ cs) || contains pattern cs

-- The code points that `to_lowercase` makes of one. Of the capital letters outside ASCII only those
-- are mapped whose small form holds an ASCII letter (U+0130 and the Kelvin sign U+212A): no other is
-- seen by a search for ASCII text.
lowercase_code : ℕ → List ℕ
lowercase_code c =
    if leb 65 c && leb c 90
    then (c + 32) ∷ []
    else if nat_eqb c 0x130
    then 105 ∷ 0x307 ∷ []
    else if nat_eqb c 0x212a
    then 107 ∷ []
    else c ∷ []

-- `to_lowercase`, as far as a search for ASCII text sees it.
unfoldable pub to_lowercase : List ℕ → List ℕ
unfolding lowercase_code
to_lowercase [] = []
to_lowercase (c ∷ cs) = lowercase_code c ++ to_lowercase cs
