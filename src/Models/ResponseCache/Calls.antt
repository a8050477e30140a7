-- ===== src/Models/ResponseCache/Calls.antt =====
-- The calls of crates/frankclaw-models/src/cache.rs that change the cache, in an order.
use frankclaw.Prelude.{
  ℕ, ◌≡◌, refl, ◌∙◌, add_u64, String, Bool-cases, inl, inr, List, [], ◌∷◌, arith,
}
use frankclaw.Models.ResponseCache.{
  ResponseCache, CompletionRequest, cache_key, no_tools, lookup_key, store_key, lookup, store,
  clear,
}

pub data Call (Response ToolCall Image Tool Other : Type 0) : Type 0 where
  look : CompletionRequest ToolCall Image Tool Other → ℕ → Call Response ToolCall Image Tool Other
  put :
      CompletionRequest ToolCall Image Tool Other
      → Response
      → ℕ
      → Call Response ToolCall Image Tool Other
  wipe : Call Response ToolCall Image Tool Other

module _ {Response : Type 0} where
  config-lookup_key :
      (key : String) (now : ℕ) (c : ResponseCache Response)
      → (lookup_key key now c).1.config ≡ c.config
  unfolding lookup_key
  config-lookup_key key now c = ground arith

module _ {Response ToolCall Image Tool Other : Type 0} (sha256 : List ℕ → String) where
  unfoldable pub step :
      ResponseCache Response → Call Response ToolCall Image Tool Other → ResponseCache Response
  step c (look request now) = (lookup sha256 request now c).1
  step c (put request response now) = store sha256 request response now c
  step c wipe = clear c

  unfoldable pub run :
      ResponseCache Response
      → List (Call Response ToolCall Image Tool Other)
      → ResponseCache Response
  run c [] = c
  run c (call ∷ calls) = run (step c call) calls

  config-lookup :
      (request : CompletionRequest ToolCall Image Tool Other) (now : ℕ) (c : ResponseCache Response)
      → (lookup sha256 request now c).1.config ≡ c.config
  unfolding lookup
  config-lookup request now c = elim (Bool-cases (no_tools request.tools)) [
    | inl cached ↦ rw cached (
        config-lookup_key (cache_key sha256 request) now
          (record c { request_count = add_u64 c.request_count 1 }))
    | inr other ↦ rw other refl
  ]

  pub config-step :
      (c : ResponseCache Response) (call : Call Response ToolCall Image Tool Other)
      → (step c call).config ≡ c.config
  unfolding step store store_key clear
  config-step c (look request now) = config-lookup request now c
  config-step c (put request response now) = ground arith
  config-step c wipe = refl

  pub config-run :
      (c : ResponseCache Response) (calls : List (Call Response ToolCall Image Tool Other))
      → (run c calls).config ≡ c.config
  unfolding run
  config-run c [] = refl
  config-run c (call ∷ calls) = config-run (step c call) calls ∙ config-step c call
