-- ===== src/Models/Sse/Chunks.antt =====
-- How crates/frankclaw-models/src/sse.rs depends on where a stream is cut into chunks: not at all, as
-- long as the lossy decoding does not.
use mathlib.Core.List.{append_assoc, append-nil}
use frankclaw.Prelude.{
  ℕ, ◌≡◌, refl, sym, ap, ◌∙◌, false, Bool-cases, inl, inr, List, [], ◌∷◌, ◌++◌, nat_eqb, arith,
}
use frankclaw.Models.Sse.{
  SseDecoder, newline, drop_return, set_field, flush_event, handle, scan, push,
}

-- A text without a newline.
abbrev pub IsLine : List ℕ → Type 0
IsLine [] = Unit
IsLine (c ∷ cs) = (nat_eqb c newline ≡ false) × IsLine cs

IsLine-append : (xs ys : List ℕ) → IsLine xs → IsLine ys → IsLine (xs ++ ys)
IsLine-append [] ys h k = k
IsLine-append (x ∷ xs) ys h k = (h.0, IsLine-append xs ys h.1 k)

scan-append :
    (d : SseDecoder) (xs ys : List ℕ)
    → scan d (xs ++ ys) ≡ ((scan d xs).0 ++ (scan (scan d xs).1 ys).0, (scan (scan d xs).1 ys).1)
unfolding scan
scan-append d [] ys = refl
scan-append d (c ∷ cs) ys =
    let line = handle (drop_return d.buffer) (record d { buffer = [] }) in
    let first = scan line.1 cs in
    let second = scan first.1 ys in
    elim (Bool-cases (nat_eqb c newline)) [
      | inl ends ↦
          rw (ends, scan)
            (rw (scan-append line.1 cs ys)
              (ap (λ es. (es, second.1)) (sym (append_assoc line.0 first.0 second.0))))
      | inr more ↦ rw (more, scan) (scan-append (record d { buffer = d.buffer ++ (c ∷ []) }) cs ys)
    ]

scan-line :
    (d : SseDecoder) (line ys : List ℕ)
    → IsLine line
    → scan d (line ++ ys) ≡ scan (record d { buffer = d.buffer ++ line }) ys
unfolding scan
scan-line d [] ys h = rw (append-nil d.buffer) refl
scan-line d (c ∷ cs) ys h =
    rw (h.0, scan)
      (scan-line (record d { buffer = d.buffer ++ (c ∷ []) }) cs ys h.1
        ∙ ap (λ b. scan (record d { buffer = b }) ys) (append_assoc d.buffer (c ∷ []) cs))

buffer-handle : (line : List ℕ) (d : SseDecoder) → (handle line d).1.buffer ≡ d.buffer
unfolding handle flush_event set_field
buffer-handle [] d = ground arith
buffer-handle (c ∷ cs) d = ground arith

-- What a loop leaves in the buffer has no newline.
scan-IsLine : (d : SseDecoder) (text : List ℕ) → IsLine d.buffer → IsLine (scan d text).1.buffer
unfolding scan
scan-IsLine d [] h = h
scan-IsLine d (c ∷ cs) h =
    let line = handle (drop_return d.buffer) (record d { buffer = [] }) in
    elim (Bool-cases (nat_eqb c newline)) [
      | inl ends ↦
          rw (ends, scan)
            (scan-IsLine line.1 cs
              (rw (buffer-handle (drop_return d.buffer) (record d { buffer = [] })) tt))
      | inr more ↦
          rw (more, scan)
            (scan-IsLine (record d { buffer = d.buffer ++ (c ∷ []) }) cs
              (IsLine-append d.buffer (c ∷ []) h (more, tt)))
    ]

module _ (from_utf8_lossy : List ℕ → List ℕ) where
  -- Two chunks give the events, and leave the decoder, that their bytes in one chunk do, whatever the
  -- decoder has read before, if the lossy decoding of the bytes is not changed by the cut, which holds
  -- where no character is cut in two.
  pub push-append :
      (d : SseDecoder) (a b : List ℕ)
      → from_utf8_lossy (a ++ b) ≡ from_utf8_lossy a ++ from_utf8_lossy b
      → push from_utf8_lossy d (a ++ b) ≡ (
        (push from_utf8_lossy d a).0 ++ (push from_utf8_lossy (push from_utf8_lossy d a).1 b).0,
        (push from_utf8_lossy (push from_utf8_lossy d a).1 b).1,
      )
  unfolding push
  push-append d a b cut =
      let start = record d { buffer = [] } in
      let read = d.buffer ++ from_utf8_lossy a in
      let left = (scan start read).1 in
      let again =
        scan-line (record left { buffer = [] }) left.buffer (from_utf8_lossy b)
          (scan-IsLine start read tt) in
      rw (cut, sym (append_assoc d.buffer (from_utf8_lossy a) (from_utf8_lossy b)))
        (scan-append start read (from_utf8_lossy b)
          ∙ ap (λ r. ((scan start read).0 ++ r.0, r.1)) (sym again))
