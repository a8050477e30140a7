-- ===== src/Gateway/Canvas/Tests.antt =====
-- Two patches of the first revision, and one after the canvas was cleared.
use frankclaw.Prelude.{
  ◌≡◌, refl, none, some, List, [], ◌∷◌, String, string_eq, lookup, insert, remove, chars, arith,
}
use frankclaw.Core.Error.{ok, err, invalid_request}
use frankclaw.Gateway.Canvas.{
  CanvasDocument, CanvasPatch, set, patch, clear_canvas, conflict, next_revision, existing_or_blank,
  patched, store_patched, revised, validate_document_size, document_size, given_or,
}
use frankclaw.Gateway.Canvas.Steps.{Op, setting, run}
use frankclaw.Gateway.Canvas.Revisions.{stale_patch_rejected}

abbrev doc : CanvasDocument Unit
doc = record {
  id = "main";
  title = chars "plan";
  body = [];
  session_key = none;
  blocks = [];
  revision = 9;
  updated_at = 0;
}

abbrev retitled : CanvasPatch Unit
retitled = record {
  title = some (chars "new plan");
  body = none;
  session_key = none;
  append_blocks = [];
  expected_revision = some 1;
}

abbrev before : List (Op Unit)
before = setting doc ∷ []

-- The document that the first patch makes.
abbrev second : CanvasDocument Unit
second = record doc { title = chars "new plan"; revision = 2; updated_at = 5 }

first_passes : (patch "main" retitled 5 (run before [])).0 ≡ ok second
unfolding patch set lookup insert next_revision existing_or_blank patched store_patched revised
    validate_document_size document_size given_or conflict
first_passes = refl

-- A canvas that was cleared and set again is at revision 1 again, and a stale patch passes.
cleared_passes :
    (patch "main" retitled 5 (set doc (clear_canvas "main" (run before []))).1).0 ≡ ok second
unfolding patch set clear_canvas remove lookup insert next_revision existing_or_blank patched
    store_patched revised validate_document_size document_size given_or conflict
cleared_passes = refl

stale_patch_rejected_example :
    (msg : String) × ((patch "main" retitled 6
        (run [] (patch "main" retitled 5 (run before [])).1)).0
      ≡ err (invalid_request msg))
stale_patch_rejected_example =
    stale_patch_rejected before [] "main" retitled retitled 5 6 1 second refl refl first_passes
      (omega arith)
