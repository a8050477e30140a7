-- ===== src/Gateway/Canvas/Revisions.antt =====
-- Two patches that expect one revision.
use frankclaw.Prelude.{
  ℕ, ◌+◌, ◌^◌, ◌<◌, ◌≡◌, ◌≢◌, ◌∙◌, inl, inr, refl, ap, sym, false, Bool-cases, Option-cases, none,
  some, List, [], String, string_eq, ==_refl, Map, lookup, lookup-insert, Everywhere-empty, length,
  ltb, nat_eqb, add_u64, arith,
}
use frankclaw.Core.Error.{FrankClawError, invalid_request, Result, ok, err, Result-cases}
use frankclaw.Gateway.Canvas.{
  CanvasDocument, CanvasPatch, patch, conflict, existing_or_blank, patched, store_patched, revised,
  validate_document_size, max_blocks_per_document,
}
use frankclaw.Gateway.Canvas.Steps.{
  Op, run, revision_in, IsKeyed, existing_or_blank-id, patch-Advances, run-IsKeyed, revision_in-run,
}

conflict-none :
    (expected revision : ℕ) → conflict (some expected) revision ≡ none → revision ≡ expected
unfolding conflict
conflict-none expected revision h = ground arith

conflict-other :
    (expected revision : ℕ)
    → revision ≢ expected
    → (msg : String) × (conflict (some expected) revision ≡ some msg)
unfolding conflict
conflict-other expected revision h =
    let other : nat_eqb revision expected ≡ false = ground arith in rw other (_, refl)

module _ {Meta : Type 0} where
  err_ok :
      {x : FrankClawError} {d : CanvasDocument Meta}
      → ◌≡◌ {A = Result (CanvasDocument Meta)} (err x) (ok d)
      → ⊥
  err_ok h = cc

  store_patched_ok :
      (now : ℕ) (d d' : CanvasDocument Meta) (s : Map String (CanvasDocument Meta))
      → (store_patched now d s).0 ≡ ok d'
      → revision_in d.id (store_patched now d s).1 ≡ add_u64 d.revision 1
  unfolding store_patched revised
  store_patched_ok now d d' s done =
      elim (Bool-cases (ltb max_blocks_per_document (length d.blocks))) [
        | inl many ↦ absurd (err_ok (rw (many, store_patched) at done))
        | inr few ↦ elim (Result-cases (validate_document_size d)) [
          | inr (e, large) ↦ absurd (err_ok (rw (few, large, store_patched) at done))
          | inl (u, fits) ↦
              rw
                (
                  few,
                  fits,
                  lookup-insert d.id d.id (revised now d) s,
                  ==_refl d.id,
                  revision_in,
                  store_patched,
                )
                refl
        ]
      ]

  -- A patch that names the revision it expects passes only at this revision, and counts it up.
  patch_ok :
      (id : String) (p : CanvasPatch Meta) (now e : ℕ) (d : CanvasDocument Meta)
      (s : Map String (CanvasDocument Meta))
      → IsKeyed s
      → p.expected_revision ≡ some e
      → (patch id p now s).0 ≡ ok d
      → revision_in id (patch id p now s).1 ≡ add_u64 e 1
  unfolding patch patched
  patch_ok id p now e d s keyed expects done =
      let existing = existing_or_blank id now (lookup id s) in
      let (named, same) = existing_or_blank-id id now s keyed in
      elim (Option-cases (conflict p.expected_revision existing.revision)) [
        | inr (msg, stale) ↦ absurd (err_ok (rw (stale, patch) at done))
        | inl fresh ↦
            let passed = rw (fresh, patch) at done in
            let expected : existing.revision ≡ e =
              conflict-none e existing.revision (rw expects at fresh) in
            rw (fresh, patch)
              (ap (λ k. revision_in k (store_patched now (patched p existing) s).1) (sym named)
                ∙ store_patched_ok now (patched p existing) d s passed
                ∙ ap (λ r. add_u64 r 1) expected)
      ]

  patch_stale :
      (id : String) (p : CanvasPatch Meta) (now e : ℕ) (s : Map String (CanvasDocument Meta))
      → IsKeyed s
      → p.expected_revision ≡ some e
      → revision_in id s ≢ e
      → (msg : String) × ((patch id p now s).0 ≡ err (invalid_request msg))
  unfolding patch
  patch_stale id p now e s keyed expects differs =
      let (named, same) = existing_or_blank-id id now s keyed in
      let (msg, stale) =
        conflict-other e (existing_or_blank id now (lookup id s)).revision
          (λ h. differs (sym same ∙ h)) in
      (msg, rw (expects, stale, patch) refl)

  -- Of two patches of a canvas that expect the same revision, the second is rejected as a conflict when
  -- the first one was accepted, whatever documents are set and patched before and between, if no canvas
  -- is cleared and the revision stays below 2^64.
  pub stale_patch_rejected :
      (before between : List (Op Meta)) (id : String) (p p' : CanvasPatch Meta) (now now' e : ℕ)
      (d : CanvasDocument Meta)
      → p.expected_revision ≡ some e
      → p'.expected_revision ≡ some e
      → (patch id p now (run before [])).0 ≡ ok d
      → e + 1 + length between < 2 ^ 64
      → (msg : String) × ((patch id p' now' (run between (patch id p now (run before [])).1)).0
          ≡ err (invalid_request msg))
  stale_patch_rejected before between id p p' now now' e d expects expects' done small =
      let s = run before [] in
      let keyed = run-IsKeyed before [] (Everywhere-empty (λ k c. c.id ≡ k)) in
      let s' = (patch id p now s).1 in
      let keyed' = (patch-Advances id id p now s keyed).0 in
      let now_at : revision_in id s' ≡ e + 1 =
        omega (arith, patch_ok id p now e d s keyed expects done) in
      let later = revision_in-run id between s' keyed' (omega (arith, now_at)) in
      patch_stale id p' now' e (run between s') (run-IsKeyed between s' keyed') expects'
        (λ same. omega (arith, now_at, later, same))
