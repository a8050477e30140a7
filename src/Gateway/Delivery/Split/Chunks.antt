-- ===== src/Gateway/Delivery/Split/Chunks.antt =====
-- What `split_text` makes of a text.
use frankclaw.Prelude.{
  ℕ, zero, suc, ◌≤◌, ◌<◌, ◌≡◌, ◌≢◌, ◌∙◌, refl, ap, sym, Bool, true, false, none, Option, Bool-cases,
  inl, inr, List, [], ◌∷◌, ◌++◌, All, leb, length, drop, length-drop, arith,
}
use mathlib.Core.List.{append-nil}
use frankclaw.Gateway.Delivery.Split.{
  is_nil, take, trim_start, trim, scan, preferred, chunk_of, consumed, chunks_of, or_whole,
  split_text,
}
use frankclaw.Gateway.Delivery.Split.Words.{
  concat, visible, visible-append, visible-trim_start, visible-trim, take-drop, Starts,
  trim_start-Starts, trim_end-Starts, length-trim_start-le, length-trim-le, Cuts, scan-Cuts,
  chunk_of-KeepsVisible,
}

-- A chunk that can be sent: not empty and within the limit.
abbrev pub Fits : ℕ → List ℕ → Type 0
Fits max_chars chunk = (is_nil chunk ≡ false) × (length chunk ≤ max_chars)

module _ (is_whitespace : ℕ → Bool) where
  -- What a round leaves.
  abbrev rest_of : ℕ → List ℕ → List ℕ
  rest_of n s = trim_start is_whitespace (drop n s)

  chunks_of_last :
      (fuel max_chars c : ℕ) (cs : List ℕ)
      → leb (length (c ∷ cs)) max_chars ≡ true
      → chunks_of is_whitespace (suc fuel) max_chars (c ∷ cs) ≡ (c ∷ cs) ∷ []
  unfolding chunks_of is_nil
  chunks_of_last fuel max_chars c cs short = rw short refl

  chunks_of_round :
      (fuel max_chars c : ℕ) (cs : List ℕ) (found : ℕ × Option ℕ)
      → found ≡ scan is_whitespace max_chars 0 none (c ∷ cs)
      → leb (length (c ∷ cs)) max_chars ≡ false
      → is_nil (chunk_of is_whitespace found (c ∷ cs)) ≡ false
      → Cuts max_chars found
      → chunks_of is_whitespace (suc fuel) max_chars (c ∷ cs)
        ≡ chunk_of is_whitespace found (c ∷ cs)
          ∷ chunks_of is_whitespace fuel max_chars (rest_of (preferred found) (c ∷ cs))
  unfolding chunks_of is_nil consumed
  chunks_of_round fuel max_chars c cs found e long kept (cut, few) =
      let taken : consumed found ≡ preferred found = ground (arith, cut) in
      rw (long, ← e, kept, taken) refl

  visible-rest_of :
      (n : ℕ) (s : List ℕ)
      → visible is_whitespace (take n s) ++ visible is_whitespace (rest_of n s)
        ≡ visible is_whitespace s
  visible-rest_of n s =
      ap (λ t. visible is_whitespace (take n s) ++ t) (visible-trim_start is_whitespace (drop n s))
      ∙ sym (visible-append is_whitespace (take n s) (drop n s))
      ∙ ap (visible is_whitespace) (take-drop n s)

  length-rest_of-le :
      (n fuel c : ℕ) (cs : List ℕ)
      → 0 < n
      → length (c ∷ cs) ≤ suc fuel
      → length (rest_of n (c ∷ cs)) ≤ fuel
  length-rest_of-le n fuel c cs cut enough =
      omega (arith, length-trim_start-le is_whitespace (drop n (c ∷ cs)), length-drop n (c ∷ cs))

  -- With a round for each character there are enough.
  chunks_of-Chunks :
      (fuel max_chars : ℕ) (s : List ℕ)
      → 0 < max_chars
      → length s ≤ fuel
      → Starts is_whitespace s
      → All (Fits max_chars) (chunks_of is_whitespace fuel max_chars s)
        × (visible is_whitespace (concat (chunks_of is_whitespace fuel max_chars s))
            ≡ visible is_whitespace s)
  unfolding chunks_of is_nil
  chunks_of-Chunks zero max_chars [] h enough starts = (tt, refl)
  chunks_of-Chunks zero max_chars (c ∷ cs) h enough starts = absurd (omega arith)
  chunks_of-Chunks (suc fuel) max_chars [] h enough starts = (tt, refl)
  chunks_of-Chunks (suc fuel) max_chars (c ∷ cs) h enough starts =
      elim (Bool-cases (leb (length (c ∷ cs)) max_chars)) [
        | inl short ↦
            rw (chunks_of_last fuel max_chars c cs short)
              (((refl, ground arith), tt), ap (visible is_whitespace) (append-nil (c ∷ cs)))
        | inr long ↦
            let found = scan is_whitespace max_chars 0 none (c ∷ cs) in
            let cut = scan-Cuts is_whitespace max_chars (c ∷ cs) h (ground (arith, long)) in
            let (kept, few, seen) =
              chunk_of-KeepsVisible is_whitespace max_chars found c cs starts cut in
            let rest = rest_of (preferred found) (c ∷ cs) in
            let (fit, all) =
              chunks_of-Chunks fuel max_chars rest h
                (length-rest_of-le (preferred found) fuel c cs cut.0 enough)
                (trim_start-Starts is_whitespace (drop (preferred found) (c ∷ cs))) in
            rw (chunks_of_round fuel max_chars c cs found refl long kept cut) (
              ((kept, few), fit),
              visible-append is_whitespace (chunk_of is_whitespace found (c ∷ cs))
                    (concat (chunks_of is_whitespace fuel max_chars rest))
                  ∙ rw (seen, all) (visible-rest_of (preferred found) (c ∷ cs)),
            )
      ]

  -- Something is visible of what starts with no white space.
  visible_start :
      (s : List ℕ) → Starts is_whitespace s → is_nil s ≡ false → visible is_whitespace s ≢ []
  unfolding is_nil
  visible_start [] starts h = cc
  visible_start (c ∷ cs) starts h = rw starts cc

  or_whole-Chunks :
      (max_chars : ℕ) (text : List ℕ) (chunks : List (List ℕ))
      → Starts is_whitespace (trim is_whitespace text)
      → is_nil (trim is_whitespace text) ≡ false
      → All (Fits max_chars) chunks
      → visible is_whitespace (concat chunks) ≡ visible is_whitespace (trim is_whitespace text)
      → All (Fits max_chars) (or_whole text chunks)
        × (visible is_whitespace (concat (or_whole text chunks)) ≡ visible is_whitespace text)
  unfolding or_whole
  or_whole-Chunks max_chars text [] starts h all same =
      absurd (visible_start (trim is_whitespace text) starts h (sym same))
  or_whole-Chunks max_chars text (chunk ∷ chunks) starts h all same =
      (all, same ∙ visible-trim is_whitespace text)

  -- A text that is not all white space is cut, for a limit above 0, into chunks that are not empty and
  -- no longer than the limit, and that hold together, in order, all characters of the text that are no
  -- white space.
  pub split_text-Splits :
      (text : List ℕ) (max_chars : ℕ)
      → 0 < max_chars
      → is_nil (trim is_whitespace text) ≡ false
      → All (Fits max_chars) (split_text is_whitespace text max_chars)
        × (visible is_whitespace (concat (split_text is_whitespace text max_chars))
            ≡ visible is_whitespace text)
  unfolding split_text trim
  split_text-Splits text max_chars h shown =
      let starts : Starts is_whitespace (trim is_whitespace text) =
        trim_end-Starts is_whitespace (trim_start is_whitespace text)
          (trim_start-Starts is_whitespace text) in
      let (fit, all) =
        chunks_of-Chunks (length text) max_chars (trim is_whitespace text) h
          (length-trim-le is_whitespace text) starts in
      or_whole-Chunks max_chars text _ starts shown fit all
