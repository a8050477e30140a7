-- ===== src/Gateway/Canvas/Steps.antt =====
-- How the steps on canvases change their revisions.
use frankclaw.Prelude.{
  ℕ, ◌+◌, ◌^◌, ◌≤◌, ◌<◌, ◌≡◌, ◌⊎◌, ◌∙◌, inl, inr, refl, ap, sym, Bool-cases, Option-cases, none,
  some, List, [], ◌∷◌, String, string_eq, ◌==◌, ==_iff, Map, lookup, insert, lookup-insert,
  Everywhere, Everywhere-insert, length, ltb, add_u64, arith,
}
use frankclaw.Core.Error.{Result-cases}
use frankclaw.Gateway.Canvas.{
  CanvasDocument, CanvasPatch, set, patch, conflict, next_revision, existing_or_blank, patched,
  store_patched, revised, validate_document_size, max_blocks_per_document,
}

-- The steps other than `clear`.
pub data Op (Meta : Type 0) : Type 0 where
  setting : CanvasDocument Meta → Op Meta
  patching : String → CanvasPatch Meta → ℕ → Op Meta

module _ {Meta : Type 0} where
  abbrev pub step : Op Meta → Map String (CanvasDocument Meta) → Map String (CanvasDocument Meta)
  step (setting d) s = (set d s).1
  step (patching id p now) s = (patch id p now s).1

  abbrev pub run :
      List (Op Meta) → Map String (CanvasDocument Meta) → Map String (CanvasDocument Meta)
  run [] s = s
  run (op ∷ ops) s = run ops (step op s)

  -- The revision of a canvas, 0 where there is none.
  abbrev pub revision_in : String → Map String (CanvasDocument Meta) → ℕ
  revision_in id s = elim (lookup id s) [ none ↦ 0 | some d ↦ d.revision ]

  -- Every document stands under its id.
  abbrev pub IsKeyed : Map String (CanvasDocument Meta) → Type 0
  IsKeyed = Everywhere (λ k d. d.id ≡ k)

  -- A step keeps the keys, and the revision of a canvas or counts it up.
  abbrev pub Advances :
      String → Map String (CanvasDocument Meta) → Map String (CanvasDocument Meta) → Type 0
  Advances id s s' =
      IsKeyed s'
      × ((revision_in id s' ≡ revision_in id s)
          ⊎ (revision_in id s' ≡ add_u64 (revision_in id s) 1))

  insert-Advances :
      (id : String) (s : Map String (CanvasDocument Meta)) (d : CanvasDocument Meta)
      → IsKeyed s
      → d.revision ≡ add_u64 (revision_in d.id s) 1
      → Advances id s (insert d.id d s)
  insert-Advances id s d keyed next = (
    Everywhere-insert (λ k e. e.id ≡ k) d.id d s refl keyed,
    elim (Bool-cases (d.id == id)) [
      | inl here ↦
          let same : d.id ≡ id = (==_iff d.id id).0 here in
          rw (lookup-insert d.id id d s, here, ← same, revision_in) (inr next)
      | inr other ↦ rw (lookup-insert d.id id d s, other, revision_in) (inl refl)
    ],
  )

  next_revision_lem :
      (id : String) (s : Map String (CanvasDocument Meta))
      → next_revision (lookup id s) ≡ add_u64 (revision_in id s) 1
  unfolding next_revision
  next_revision_lem id s = elim (Option-cases (lookup id s)) [
    | inl absent ↦ rw (absent, revision_in) refl
    | inr (d, present) ↦ rw (present, revision_in) refl
  ]

  set-Advances :
      (id : String) (d : CanvasDocument Meta) (s : Map String (CanvasDocument Meta))
      → IsKeyed s
      → Advances id s (set d s).1
  unfolding set
  set-Advances id d s keyed = elim (Result-cases (validate_document_size d)) [
    | inr (e, large) ↦ rw (large, set) (keyed, inl refl)
    | inl (u, fits) ↦
        rw (fits, set)
          (insert-Advances id s (record d { revision = next_revision (lookup d.id s) }) keyed
            (next_revision_lem d.id s))
  ]

  -- The document that a patch finds stands under the id that is asked for, with its revision.
  pub existing_or_blank-id :
      (id : String) (now : ℕ) (s : Map String (CanvasDocument Meta))
      → IsKeyed s
      → ((existing_or_blank id now (lookup id s)).id ≡ id)
        × ((existing_or_blank id now (lookup id s)).revision ≡ revision_in id s)
  unfolding existing_or_blank
  existing_or_blank-id id now s keyed = elim (Option-cases (lookup id s)) [
    | inl absent ↦ rw (absent, revision_in) (refl, refl)
    | inr (d, present) ↦ rw (present, revision_in) (keyed.at_key id d present, refl)
  ]

  store_patched-Advances :
      (id : String) (now : ℕ) (d : CanvasDocument Meta) (s : Map String (CanvasDocument Meta))
      → IsKeyed s
      → d.revision ≡ revision_in d.id s
      → Advances id s (store_patched now d s).1
  unfolding store_patched revised
  store_patched-Advances id now d s keyed same =
      elim (Bool-cases (ltb max_blocks_per_document (length d.blocks))) [
        | inl many ↦ rw many (keyed, inl refl)
        | inr few ↦ elim (Result-cases (validate_document_size d)) [
          | inr (e, large) ↦ rw (few, large) (keyed, inl refl)
          | inl (u, fits) ↦
              rw (few, fits)
                (insert-Advances id s (revised now d) keyed (ap (λ r. add_u64 r 1) same))
        ]
      ]

  pub patch-Advances :
      (id id' : String) (p : CanvasPatch Meta) (now : ℕ) (s : Map String (CanvasDocument Meta))
      → IsKeyed s
      → Advances id s (patch id' p now s).1
  unfolding patch patched
  patch-Advances id id' p now s keyed =
      let existing = existing_or_blank id' now (lookup id' s) in
      let (named, same) = existing_or_blank-id id' now s keyed in
      elim (Option-cases (conflict p.expected_revision existing.revision)) [
        | inr (msg, stale) ↦ rw (stale, patch) (keyed, inl refl)
        | inl fresh ↦
            rw (fresh, patch)
              (store_patched-Advances id now (patched p existing) s keyed
                (same ∙ ap (λ k. revision_in k s) (sym named)))
      ]

  step-Advances :
      (id : String) (op : Op Meta) (s : Map String (CanvasDocument Meta))
      → IsKeyed s
      → Advances id s (step op s)
  step-Advances id (setting d) s keyed = set-Advances id d s keyed
  step-Advances id (patching id' p now) s keyed = patch-Advances id id' p now s keyed

  pub run-IsKeyed :
      (ops : List (Op Meta)) (s : Map String (CanvasDocument Meta))
      → IsKeyed s
      → IsKeyed (run ops s)
  run-IsKeyed [] s keyed = keyed
  run-IsKeyed (op ∷ ops) s keyed = run-IsKeyed ops (step op s) (step-Advances "" op s keyed).0

  -- Below 2^64, the revision is not lower after any steps.
  pub revision_in-run :
      (id : String) (ops : List (Op Meta)) (s : Map String (CanvasDocument Meta))
      → IsKeyed s
      → revision_in id s + length ops < 2 ^ 64
      → revision_in id s ≤ revision_in id (run ops s)
  revision_in-run id [] s keyed small = omega arith
  revision_in-run id (op ∷ ops) s keyed small = elim (step-Advances id op s keyed).1 [
    | inl same ↦ omega (
      arith,
      same,
      revision_in-run id ops (step op s) (step-Advances id op s keyed).0 (omega (arith, same)),
    )
    | inr next ↦
        let more : revision_in id (step op s) ≡ revision_in id s + 1 = omega (arith, next) in
        omega (
          arith,
          more,
          revision_in-run id ops (step op s) (step-Advances id op s keyed).0 (omega (arith, more)),
        )
  ]
