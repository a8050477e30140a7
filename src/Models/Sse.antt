-- ===== src/Models/Sse.antt =====
-- crates/frankclaw-models/src/sse.rs, the decoder of server-sent events. A text is its characters; the
-- lossy decoding of a chunk's bytes and the test for white space are arguments. The loop looks for
-- newlines; here it walks over the buffer, and the characters since the last newline are the buffer.
pub mod Chunks
mod Tests
use frankclaw.Prelude.{
  ℕ, Bool, true, false, Option, none, some, List, [], ◌∷◌, ◌++◌, ◌&&◌, not, nat_eqb, chars, any,
  if◌then◌else◌,
}
use frankclaw.Core.Ids.{split_colon, colon}

pub record SseEvent : Type 0 where
  pub event : Option (List ℕ)
  pub event_data : List ℕ  -- `data`

pub record SseDecoder : Type 0 where
  pub buffer : List ℕ
  pub event : Option (List ℕ)
  pub data_lines : List (List ℕ)

-- `SseDecoder::default`.
abbrev pub default_decoder : SseDecoder
default_decoder = record { buffer = []; event = none; data_lines = [] }

abbrev pub newline : ℕ
newline = 10

-- `if line.ends_with('\r') { line.pop(); }`.
drop_return : List ℕ → List ℕ
drop_return [] = []
drop_return (c ∷ []) = if nat_eqb c 13 then [] else c ∷ []
drop_return (c ∷ d ∷ cs) = c ∷ drop_return (d ∷ cs)

-- `value.strip_prefix(' ').unwrap_or(value)`.
strip_space : List ℕ → List ℕ
strip_space [] = []
strip_space (c ∷ cs) = if nat_eqb c 32 then cs else c ∷ cs

field_value : List ℕ → List ℕ × List ℕ
unfolding strip_space
field_value line = elim (split_colon line) [
  | none ↦ (line, [])
  | some (field, value) ↦ (field, strip_space value)
]

same_text : List ℕ → List ℕ → Bool
same_text [] [] = true
same_text (a ∷ s) (b ∷ t) = nat_eqb a b && same_text s t
same_text _ _ = false

-- The `match` on the field of a line.
set_field : List ℕ × List ℕ → SseDecoder → SseDecoder
unfolding same_text
set_field line d =
    if same_text line.0 (chars "event")
    then record d { event = some line.1 }
    else if same_text line.0 (chars "data")
    then record d { data_lines = d.data_lines ++ (line.1 ∷ []) }
    else d

-- `join("\n")`.
join_lines : List (List ℕ) → List ℕ
join_lines [] = []
join_lines (line ∷ []) = line
join_lines (line ∷ next ∷ lines) = line ++ (newline ∷ join_lines (next ∷ lines))

-- `event.is_none() && data_lines.is_empty()`.
has_nothing : SseDecoder → Bool
has_nothing d = elim d.event [
  | some name ↦ false
  | none ↦ elim d.data_lines [ [] ↦ true | line ∷ lines ↦ false ]
]

pub flush_event : SseDecoder → Option SseEvent × SseDecoder
unfolding has_nothing join_lines
flush_event d = if has_nothing d then (none, d) else (
  some (record { event = d.event; event_data = join_lines d.data_lines }),
  record d { event = none; data_lines = [] },
)

listed : Option SseEvent → List SseEvent
listed none = []
listed (some e) = e ∷ []

-- What the loop does with a line, its return taken off.
handle : List ℕ → SseDecoder → List SseEvent × SseDecoder
unfolding flush_event listed field_value set_field
handle [] d = (listed (flush_event d).0, (flush_event d).1)
handle (c ∷ cs) d = if nat_eqb c colon then ([], d) else ([], set_field (field_value (c ∷ cs)) d)

-- The loop of `push` over the text that follows the buffer.
scan : SseDecoder → List ℕ → List SseEvent × SseDecoder
unfolding handle drop_return
scan d [] = ([], d)
scan d (c ∷ cs) =
    let line = handle (drop_return d.buffer) (record d { buffer = [] }) in
    let ended = scan line.1 cs in
    let longer = scan (record d { buffer = d.buffer ++ (c ∷ []) }) cs in
    if nat_eqb c newline then (line.0 ++ ended.0, ended.1) else longer

module _ (from_utf8_lossy : List ℕ → List ℕ) where
  unfoldable pub push : SseDecoder → List ℕ → List SseEvent × SseDecoder
  unfolding scan
  push d chunk = scan (record d { buffer = [] }) (d.buffer ++ from_utf8_lossy chunk)

module _ (is_whitespace : ℕ → Bool) where
  -- `buffer.trim().is_empty()` holds of white space alone.
  unfoldable pub finish : SseDecoder → Option SseEvent × SseDecoder
  unfolding flush_event field_value set_field drop_return
  finish d =
      if any (λ c. not (is_whitespace c)) d.buffer
      then flush_event (set_field (field_value (drop_return d.buffer)) (record d { buffer = [] }))
      else flush_event d
