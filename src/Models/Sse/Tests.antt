-- ===== src/Models/Sse/Tests.antt =====
-- A stream cut inside a line.
use frankclaw.Prelude.{ℕ, ◌≡◌, refl, some, List, [], ◌∷◌, ◌++◌, chars}
use frankclaw.Core.Ids.{split_colon}
use frankclaw.Models.Sse.{
  default_decoder, push, scan, handle, drop_return, flush_event, has_nothing, join_lines, listed,
  field_value, strip_space, set_field, same_text,
}
use frankclaw.Models.Sse.Chunks.{push-append}

abbrev ascii : List ℕ → List ℕ
ascii bytes = bytes

abbrev first : List ℕ
first = chars "event: ping" ++ (10 ∷ chars "data: a")

abbrev second : List ℕ
second = 13 ∷ 10 ∷ (chars "data:b" ++ (10 ∷ 10 ∷ []))

ping_event :
    (push ascii default_decoder (first ++ second)).0
    ≡ record { event = some (chars "ping"); event_data = 97 ∷ 10 ∷ 98 ∷ [] } ∷ []
unfolding push scan handle drop_return flush_event has_nothing join_lines listed field_value
    strip_space set_field same_text split_colon
ping_event = refl

push-append_example : push ascii default_decoder (first ++ second) ≡ (
  (push ascii default_decoder first).0
      ++ (push ascii (push ascii default_decoder first).1 second).0,
  (push ascii (push ascii default_decoder first).1 second).1,
)
push-append_example = push-append ascii default_decoder first second refl
