-- ===== src/Core/Ids/Clamp.antt =====
-- When the clamp of crates/frankclaw-core/src/types.rs cuts an identifier, and when it panics.
use frankclaw.Prelude.{
  ℕ, zero, suc, ◌≤◌, ◌<◌, ◌≡◌, ◌↔◌, ap, false, Option, none, some, Bool-cases, Option-cases, inl,
  inr, List, [], ◌∷◌, leb, length, if◌then◌else◌, drop, arith,
}
use frankclaw.Core.Ids.{is_boundary, prefix, clamp_id, max_id_len}

prefix-none_iff :
    (n : ℕ) (s : List ℕ) → n ≤ length s → (prefix n s ≡ none) ↔ (is_boundary (drop n s) ≡ false)
unfolding prefix
prefix-none_iff zero s h = ground arith
prefix-none_iff (suc n) [] h = absurd (omega arith)
prefix-none_iff (suc n) (b ∷ bs) h = ground (arith, prefix-none_iff n bs (omega arith))

prefix-length : (n : ℕ) (s front : List ℕ) → prefix n s ≡ some front → length front ≡ n
unfolding prefix
prefix-length zero s front h = ground arith
prefix-length (suc n) [] front h = cc
prefix-length (suc n) (b ∷ bs) front h = elim (Option-cases (prefix n bs)) [
  | inl absent ↦ absurd (ground arith)
  | inr (start, found) ↦
      let whole : b ∷ start ≡ front = ground arith in
      rw (← whole) (ap suc (prefix-length n bs start found))
]

-- The clamp at any length.
clamp_at : ℕ → List ℕ → Option (List ℕ)
clamp_at n s = if leb (length s) n then some s else prefix n s

clamp_at-none_iff :
    (n : ℕ) (s : List ℕ)
    → (clamp_at n s ≡ none) ↔ ((n < length s) × (is_boundary (drop n s) ≡ false))
unfolding clamp_at
clamp_at-none_iff n s = elim (Bool-cases (leb (length s) n)) [
  | inl short ↦ rw short (λ h. cc, λ h. absurd (ground arith))
  | inr long ↦
      let more : n < length s = ground arith in
      let (to, from) = prefix-none_iff n s (omega arith) in
      rw long (λ h. (more, to h), λ h. from h.1)
]

length-clamp_at-le : (n : ℕ) (s text : List ℕ) → clamp_at n s ≡ some text → length text ≤ n
unfolding clamp_at
length-clamp_at-le n s text h = elim (Bool-cases (leb (length s) n)) [
  | inl short ↦ let same : s ≡ text = ground arith in rw (← same) (ground arith)
  | inr long ↦ omega (arith, prefix-length n s text (ground arith))
]

-- The clamp of an identifier panics exactly when it is longer than 255 bytes and a character stands
-- across the boundary behind byte 255; otherwise it gives at most 255 bytes.
pub clamp_id-none_iff :
    (s : List ℕ)
    → ((clamp_id s ≡ none) ↔ ((max_id_len < length s) × (is_boundary (drop max_id_len s) ≡ false)))
      × ((text : List ℕ) → clamp_id s ≡ some text → length text ≤ max_id_len)
unfolding clamp_id clamp_at
clamp_id-none_iff s = (clamp_at-none_iff max_id_len s, length-clamp_at-le max_id_len s)
