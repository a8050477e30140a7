-- ===== src/Gateway/Canvas.antt =====
-- `CanvasStore` of crates/frankclaw-gateway/src/canvas.rs. A text is its bytes, and the JSON of a block's
-- `meta` a type. Each method is one step under the lock, with the clock as an argument; the broadcast
-- to clients is left out. The sum of the sizes of texts in memory does not overflow.
pub mod Steps
pub mod Revisions
mod Tests
use Prim.Native.String.{◌++◌}
use frankclaw.Prelude.{
  ℕ, ◌+◌, Option, none, some, List, [], ◌∷◌, ◌++◌ as append, String, string_eq, Map, lookup, insert,
  remove, length, ltb, nat_eqb, add_u64, show, if◌then◌else◌,
}
use frankclaw.Core.Error.{FrankClawError, invalid_request, Result, ok, err}

-- `MAX_DOCUMENT_SIZE`.
abbrev pub max_document_size : ℕ
max_document_size = 1048576

-- `MAX_BLOCKS_PER_DOCUMENT`.
abbrev pub max_blocks_per_document : ℕ
max_blocks_per_document = 200

pub data CanvasBlockKind : Type 0 where
  markdown code note checklist status metric action : CanvasBlockKind

-- `patch.title.unwrap_or(title)` and the like.
unfoldable pub given_or : {A : Type 0} → Option A → A → A
given_or none old = old
given_or (some a) old = a

-- The message of a conflict, if there is one.
unfoldable pub conflict : Option ℕ → ℕ → Option String
conflict none revision = none
conflict (some expected) revision =
    if nat_eqb revision expected
    then none
    else some
        ("canvas revision conflict: expected " ++ show expected ++ ", current is " ++ show revision)

module _ (Meta : Type 0) where
  pub record CanvasBlock : Type 0 where
    pub kind : CanvasBlockKind
    pub text : List ℕ
    pub meta : Option Meta

  pub record CanvasDocument : Type 0 where
    pub id : String
    pub title : List ℕ
    pub body : List ℕ
    pub session_key : Option String
    pub blocks : List CanvasBlock
    pub revision : ℕ
    pub updated_at : ℕ

  pub record CanvasPatch : Type 0 where
    pub title : Option (List ℕ)
    pub body : Option (List ℕ)
    pub session_key : Option (Option String)
    pub append_blocks : List CanvasBlock
    pub expected_revision : Option ℕ

module _ {Meta : Type 0} where
  blocks_size : List (CanvasBlock Meta) → ℕ
  blocks_size [] = 0
  blocks_size (b ∷ bs) = length b.text + blocks_size bs

  unfoldable pub document_size : CanvasDocument Meta → ℕ
  unfolding blocks_size
  document_size d = length d.title + length d.body + blocks_size d.blocks

  unfoldable pub validate_document_size : CanvasDocument Meta → Result {0} Unit
  validate_document_size d =
      if ltb max_document_size (document_size d)
      then err (
          invalid_request (
            "canvas document size exceeds limit ("
            ++ show (document_size d)
            ++ " bytes > 1048576)"))
      else ok tt

  -- `get(id).map(|existing| existing.revision + 1).unwrap_or(1)`.
  unfoldable pub next_revision : Option (CanvasDocument Meta) → ℕ
  next_revision none = 1
  next_revision (some existing) = add_u64 existing.revision 1

  unfoldable pub set :
      CanvasDocument Meta
      → Map String (CanvasDocument Meta)
      → Result (CanvasDocument Meta) × Map String (CanvasDocument Meta)
  unfolding next_revision
  set d s =
      let d' = record d { revision = next_revision (lookup d.id s) } in
      elim (validate_document_size d) [ err e ↦ (err e, s) | ok u ↦ (ok d', insert d.id d' s) ]

  -- The document that is patched: a blank one where there is none.
  unfoldable pub existing_or_blank : String → ℕ → Option (CanvasDocument Meta) → CanvasDocument Meta
  existing_or_blank canvas_id now none = record {
    id = canvas_id;
    title = [];
    body = [];
    session_key = none;
    blocks = [];
    revision = 0;
    updated_at = now;
  }
  existing_or_blank canvas_id now (some existing) = existing

  unfoldable pub patched : CanvasPatch Meta → CanvasDocument Meta → CanvasDocument Meta
  patched p d = record d {
    title = given_or p.title d.title;
    body = given_or p.body d.body;
    session_key = given_or p.session_key d.session_key;
    blocks = append d.blocks p.append_blocks;
  }

  unfoldable pub revised : ℕ → CanvasDocument Meta → CanvasDocument Meta
  revised now d = record d { revision = add_u64 d.revision 1; updated_at = now }

  -- The end of `patch`, for the patched document.
  unfoldable pub store_patched :
      ℕ
      → CanvasDocument Meta
      → Map String (CanvasDocument Meta)
      → Result (CanvasDocument Meta) × Map String (CanvasDocument Meta)
  unfolding revised
  store_patched now d s =
      if ltb max_blocks_per_document (length d.blocks)
      then (
        err (
            invalid_request
              ("canvas block count exceeds limit (" ++ show (length d.blocks) ++ " > 200)")),
        s,
      )
      else elim (validate_document_size d) [
        | err e ↦ (err e, s)
        | ok u ↦ (ok (revised now d), insert d.id (revised now d) s)
      ]

  unfoldable pub patch :
      String
      → CanvasPatch Meta
      → ℕ
      → Map String (CanvasDocument Meta)
      → Result (CanvasDocument Meta) × Map String (CanvasDocument Meta)
  unfolding existing_or_blank patched store_patched
  patch canvas_id p now s =
      let existing = existing_or_blank canvas_id now (lookup canvas_id s) in
      elim (conflict p.expected_revision existing.revision) [
        | some msg ↦ (err (invalid_request msg), s)
        | none ↦ store_patched now (patched p existing) s
      ]

  -- `clear`.
  unfoldable pub clear_canvas :
      String → Map String (CanvasDocument Meta) → Map String (CanvasDocument Meta)
  clear_canvas canvas_id s = remove canvas_id s
