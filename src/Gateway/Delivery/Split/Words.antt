-- ===== src/Gateway/Delivery/Split/Words.antt =====
-- What a round of `split_text` cuts off.
use frankclaw.Prelude.{
  ℕ, zero, suc, ◌+◌, ◌≤◌, ◌<◌, ◌≡◌, ◌∙◌, refl, ap, Bool, true, false, not, none, some, Option,
  Bool-cases, inl, inr, List, [], ◌∷◌, ◌++◌, filter, length, drop, if◌then◌else◌, arith,
}
use frankclaw.Gateway.Delivery.Split.{
  is_nil, take, trim_start, trim_end, trim, scan, preferred, chunk_of,
}

pub take-drop : (n : ℕ) (s : List ℕ) → take n s ++ drop n s ≡ s
unfolding take
take-drop zero s = refl
take-drop (suc n) [] = refl
take-drop (suc n) (c ∷ cs) = ap (λ t. c ∷ t) (take-drop n cs)

length-take-le : (n : ℕ) (s : List ℕ) → length (take n s) ≤ n
unfolding take
length-take-le zero s = omega arith
length-take-le (suc n) [] = omega arith
length-take-le (suc n) (c ∷ cs) = omega (arith, length-take-le n cs)

-- The chunks one behind the other.
abbrev pub concat : List (List ℕ) → List ℕ
concat [] = []
concat (chunk ∷ chunks) = chunk ++ concat chunks

-- An index below the bound, where there is one.
abbrev pub Before : ℕ → Option ℕ → Type 0
Before n none = Unit
Before n (some i) = i < n

below_more : (n m : ℕ) (last : Option ℕ) → n ≤ m → Before n last → Before m last
below_more n m none le h = tt
below_more n m (some i) le h = omega arith

below_seen :
    (white : Bool) (idx : ℕ) (last : Option ℕ)
    → Before idx last
    → Before (suc idx) (if white then some idx else last)
below_seen true idx last h = omega arith
below_seen false idx last h = below_more idx (suc idx) last (omega arith) h

-- What a round cuts off: something, but not more than the limit.
abbrev pub Cuts : ℕ → ℕ × Option ℕ → Type 0
Cuts max_chars found = (0 < preferred found) × (preferred found ≤ max_chars)

preferred_between :
    (max_chars : ℕ) (found : ℕ × Option ℕ)
    → 0 < max_chars
    → found.0 ≡ max_chars
    → Before max_chars found.1
    → Cuts max_chars found
unfolding preferred
preferred_between max_chars (split_at, none) h e b = (omega arith, omega arith)
preferred_between max_chars (split_at, some i) h e b = ground (arith, b)

module _ (is_whitespace : ℕ → Bool) where
  -- The characters that are no white space.
  abbrev pub visible : List ℕ → List ℕ
  visible = filter (λ c. not (is_whitespace c))

  -- Empty, or starting with no white space.
  abbrev pub Starts : List ℕ → Type 0
  Starts [] = Unit
  Starts (c ∷ cs) = is_whitespace c ≡ false

  pub visible-append : (xs ys : List ℕ) → visible (xs ++ ys) ≡ visible xs ++ visible ys
  visible-append [] ys = refl
  visible-append (c ∷ cs) ys = ground (arith, visible-append cs ys)

  pub visible-trim_start : (s : List ℕ) → visible (trim_start is_whitespace s) ≡ visible s
  unfolding trim_start
  visible-trim_start [] = refl
  visible-trim_start (c ∷ cs) = ground (arith, visible-trim_start cs)

  visible-trim_end : (s : List ℕ) → visible (trim_end is_whitespace s) ≡ visible s
  unfolding trim_end is_nil
  visible-trim_end [] = refl
  visible-trim_end (c ∷ cs) = ground (arith, visible-trim_end cs)

  pub visible-trim : (s : List ℕ) → visible (trim is_whitespace s) ≡ visible s
  unfolding trim
  visible-trim s = visible-trim_end (trim_start is_whitespace s) ∙ visible-trim_start s

  pub trim_start-Starts : (s : List ℕ) → Starts (trim_start is_whitespace s)
  unfolding trim_start
  trim_start-Starts [] = tt
  trim_start-Starts (c ∷ cs) = elim (Bool-cases (is_whitespace c)) [
    | inl white ↦ rw white (trim_start-Starts cs)
    | inr black ↦ rw black black
  ]

  pub trim_end-Starts : (s : List ℕ) → Starts s → Starts (trim_end is_whitespace s)
  unfolding trim_end is_nil
  trim_end-Starts [] h = tt
  trim_end-Starts (c ∷ cs) h = ground (arith, h)

  pub length-trim_start-le : (s : List ℕ) → length (trim_start is_whitespace s) ≤ length s
  unfolding trim_start
  length-trim_start-le [] = omega arith
  length-trim_start-le (c ∷ cs) = ground (arith, length-trim_start-le cs)

  length-trim_end-le : (s : List ℕ) → length (trim_end is_whitespace s) ≤ length s
  unfolding trim_end is_nil
  length-trim_end-le [] = omega arith
  length-trim_end-le (c ∷ cs) = ground (arith, length-trim_end-le cs)

  pub length-trim-le : (s : List ℕ) → length (trim is_whitespace s) ≤ length s
  unfolding trim
  length-trim-le s =
      omega (arith, length-trim_end-le (trim_start is_whitespace s), length-trim_start-le s)

  -- The scan ends as many characters further as there is room.
  pub scan_end :
      (room idx : ℕ) (last : Option ℕ) (s : List ℕ)
      → room < length s
      → (scan is_whitespace room idx last s).0 ≡ idx + room
  unfolding scan
  scan_end zero idx last s h = omega arith
  scan_end (suc room) idx last [] h = absurd (omega arith)
  scan_end (suc room) idx last (c ∷ cs) h =
      omega (
        arith,
        scan_end room (suc idx) (if is_whitespace c then some idx else last) cs (omega arith),
      )

  -- The white space seen last stands before the end of the scan.
  scan-Before :
      (room idx : ℕ) (last : Option ℕ) (s : List ℕ)
      → Before idx last
      → Before (idx + room) (scan is_whitespace room idx last s).1
  unfolding scan
  scan-Before zero idx last s h = below_more idx (idx + 0) last (omega arith) h
  scan-Before (suc room) idx last [] h = below_more idx (idx + suc room) last (omega arith) h
  scan-Before (suc room) idx last (c ∷ cs) h =
      let seen = if is_whitespace c then some idx else last in
      below_more (suc idx + room) (idx + suc room) (scan is_whitespace room (suc idx) seen cs).1
        (omega arith) (scan-Before room (suc idx) seen cs (below_seen (is_whitespace c) idx last h))

  pub scan-Cuts :
      (max_chars : ℕ) (s : List ℕ)
      → 0 < max_chars
      → max_chars < length s
      → Cuts max_chars (scan is_whitespace max_chars 0 none s)
  scan-Cuts max_chars s h long =
      preferred_between max_chars (scan is_whitespace max_chars 0 none s) h
        (omega (scan_end max_chars 0 none s long, arith))
        (below_more (0 + max_chars) max_chars (scan is_whitespace max_chars 0 none s).1
          (omega arith) (scan-Before max_chars 0 none s tt))

  -- White space at the end only is taken off what starts with none.
  trim_kept :
      (c : ℕ) (cs : List ℕ) → is_whitespace c ≡ false → is_nil (trim is_whitespace (c ∷ cs)) ≡ false
  unfolding trim trim_start trim_end is_nil
  trim_kept c cs h = ground (arith, h)

  trim_kept_front :
      (n c : ℕ) (cs : List ℕ)
      → 0 < n
      → is_whitespace c ≡ false
      → is_nil (trim is_whitespace (take n (c ∷ cs))) ≡ false
  unfolding take
  trim_kept_front zero c cs h black = absurd (omega arith)
  trim_kept_front (suc n) c cs h black = trim_kept c (take n cs) black

  -- The chunk of a round: not empty, not too long, and all that is visible of what is cut off.
  abbrev pub KeepsVisible : ℕ → ℕ × Option ℕ → List ℕ → Type 0
  KeepsVisible max_chars found s =
      (is_nil (chunk_of is_whitespace found s) ≡ false)
      × (length (chunk_of is_whitespace found s) ≤ max_chars)
      × (visible (chunk_of is_whitespace found s) ≡ visible (take (preferred found) s))

  pub chunk_of-KeepsVisible :
      (max_chars : ℕ) (found : ℕ × Option ℕ) (c : ℕ) (cs : List ℕ)
      → is_whitespace c ≡ false
      → Cuts max_chars found
      → KeepsVisible max_chars found (c ∷ cs)
  unfolding chunk_of
  chunk_of-KeepsVisible max_chars found c cs h (cut, few) =
      let front = take (preferred found) (c ∷ cs) in
      let kept : is_nil (trim is_whitespace front) ≡ false =
        trim_kept_front (preferred found) c cs cut h in
      rw kept (
        kept,
        omega (arith, few, length-trim-le front, length-take-le (preferred found) (c ∷ cs)),
        visible-trim front,
      )
