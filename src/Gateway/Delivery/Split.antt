-- ===== src/Gateway/Delivery/Split.antt =====
-- `split_text` of crates/frankclaw-gateway/src/delivery.rs. A text is the list of its characters,
-- and an index counts characters where the source counts bytes: each one it cuts at stands before or
-- behind a character. `is_whitespace` is that of `char`.
pub mod Words
pub mod Chunks
mod Tests
use frankclaw.Prelude.{
  ℕ, zero, suc, ◌+◌, Bool, true, false, Option, none, some, List, [], ◌∷◌, ◌&&◌, ◌==◌, string_eq,
  ltb, leb, String, length, drop, if◌then◌else◌,
}

-- `is_empty()`.
unfoldable pub is_nil : List ℕ → Bool
is_nil [] = true
is_nil (c ∷ cs) = false

-- `text[..n]`.
unfoldable pub take : ℕ → List ℕ → List ℕ
take zero s = []
take (suc n) [] = []
take (suc n) (c ∷ cs) = c ∷ take n cs

unfoldable pub max_chars_for_channel : String → Option ℕ
max_chars_for_channel channel_id =
    if channel_id == "whatsapp"
    then some 4000
    else if channel_id == "discord"
    then some 1900
    else if channel_id == "telegram"
    then some 3500
    else if channel_id == "slack"
    then some 3500
    else if channel_id == "signal"
    then some 3000
    else none

-- `last_whitespace.filter(|idx| *idx > 0).unwrap_or(split_at)`.
unfoldable pub preferred : ℕ × Option ℕ → ℕ
preferred (split_at, none) = split_at
preferred (split_at, some idx) = if ltb 0 idx then idx else split_at

unfoldable pub consumed : ℕ × Option ℕ → ℕ
unfolding preferred
consumed found = if ltb 0 (preferred found) then preferred found else found.0

-- The text itself where no chunk was made.
unfoldable pub or_whole : List ℕ → List (List ℕ) → List (List ℕ)
or_whole text [] = text ∷ []
or_whole text (chunk ∷ chunks) = chunk ∷ chunks

module _ (is_whitespace : ℕ → Bool) where
  -- `trim_start`.
  unfoldable pub trim_start : List ℕ → List ℕ
  trim_start [] = []
  trim_start (c ∷ cs) = if is_whitespace c then trim_start cs else c ∷ cs

  -- `trim_end`.
  unfoldable pub trim_end : List ℕ → List ℕ
  unfolding is_nil
  trim_end [] = []
  trim_end (c ∷ cs) =
      let rest = trim_end cs in if is_nil rest && is_whitespace c then [] else c ∷ rest

  unfoldable pub trim : List ℕ → List ℕ
  unfolding trim_start trim_end
  trim s = trim_end (trim_start s)

  -- The loop over the characters of `remaining`, `room` of them at most, from the index `idx` on:
  -- `split_at` and `last_whitespace`.
  unfoldable pub scan : ℕ → ℕ → Option ℕ → List ℕ → ℕ × Option ℕ
  scan zero idx last_whitespace s = (idx, last_whitespace)
  scan (suc room) idx last_whitespace [] = (idx, last_whitespace)
  scan (suc room) idx last_whitespace (c ∷ cs) =
      scan room (suc idx) (if is_whitespace c then some idx else last_whitespace) cs

  -- The chunk that is cut off.
  unfoldable pub chunk_of : ℕ × Option ℕ → List ℕ → List ℕ
  unfolding preferred trim take is_nil
  chunk_of found remaining =
      let chunk = trim (take (preferred found) remaining) in
      if is_nil chunk then trim (take found.0 remaining) else chunk

  -- The loop of `split_text`, with as many rounds as fuel.
  unfoldable pub chunks_of : ℕ → ℕ → List ℕ → List (List ℕ)
  unfolding is_nil chunk_of consumed scan trim_start
  chunks_of zero max_chars remaining = []
  chunks_of (suc fuel) max_chars remaining =
      let found = scan max_chars 0 none remaining in
      let chunk = chunk_of found remaining in
      let rest = chunks_of fuel max_chars (trim_start (drop (consumed found) remaining)) in
      if is_nil remaining
      then []
      else if leb (length remaining) max_chars
      then remaining ∷ []
      else if is_nil chunk
      then []
      else chunk ∷ rest

  -- A round takes a character off, so that the length of the text is enough fuel.
  unfoldable pub split_text : List ℕ → ℕ → List (List ℕ)
  unfolding chunks_of trim or_whole
  split_text text max_chars = or_whole text (chunks_of (length text) max_chars (trim text))
