-- ===== src/Models/ResponseCache/Tests.antt =====
-- Examples for crates/frankclaw-models/src/cache.rs.
use frankclaw.Prelude.{
  ℕ, ◌-◌, ◌<◌, ◌≤◌, ◌≡◌, refl, max, String, true, none, some, List, [], ◌∷◌, ◌++◌, length,
  if◌then◌else◌, nat_eqb,
}
use frankclaw.Prelude
use frankclaw.Core.Message.{user, assistant, text}
use frankclaw.Models.ResponseCache.{
  ResponseCacheConfig, CompletionRequest, bar, colon, role_name, key_bytes, no_tools, cache_key,
  lookup_key, store_key, lookup, store, new, len, evict, oldest_key, is_fresh,
}
use frankclaw.Models.ResponseCache.Calls.{Call, look, put, run, step}
use frankclaw.Models.ResponseCache.Bounds.{len-run-le}
use frankclaw.Models.ResponseCache.Hits.{last_store, lookup-hit}
use frankclaw.Models.ResponseCache.Keys.{cache_key-collides}

abbrev short_hash : List ℕ → String
short_hash bytes = if nat_eqb (length bytes) 12 then "c0ffee" else "5eed"

abbrev small : ResponseCacheConfig
small = record { ttl = 60; max_entries = 1 }

abbrev question : List ℕ → CompletionRequest Unit Unit Unit Unit
question content = record {
  model_id = 109 ∷ [];
  messages = text user content ∷ [];
  max_tokens = none;
  temperature = none;
  system = none;
  tools = [];
  other = tt;
}

abbrev two_questions : List (Call ℕ Unit Unit Unit Unit)
two_questions =
    put (question (104 ∷ 105 ∷ [])) 7 0
    ∷ look (question (104 ∷ 105 ∷ [])) 10
    ∷ put (question (104 ∷ [])) 8 20
    ∷ []

len-run-le_example : len (run short_hash (new small) two_questions) ≤ max 1 1
len-run-le_example = len-run-le short_hash small two_questions

lookup-hit_example :
    (no_tools {Tool = Unit} [] ≡ true)
    × ((at : ℕ) × ((last_store short_hash
              (cache_key short_hash (question (104 ∷ [])))
              none
              two_questions
            ≡ some (8, at))
          × (30 - at < 60)))
unfolding new run step lookup store lookup_key store_key cache_key key_bytes evict is_fresh
    oldest_key Prelude.lookup Prelude.insert Prelude.retain Prelude.remove
lookup-hit_example = lookup-hit short_hash small two_questions (question (104 ∷ [])) 30 8 refl

cache_key-collides_example :
    cache_key short_hash (record (question []) {
      messages = text user (104 ∷ (bar ∷ (role_name assistant ++ (colon ∷ 105 ∷ [])))) ∷ [];
    })
    ≡ cache_key short_hash
        (record (question []) { messages = text user (104 ∷ []) ∷ text assistant (105 ∷ []) ∷ [] })
cache_key-collides_example =
    cache_key-collides short_hash (question []) user assistant (104 ∷ []) (105 ∷ []) []
