-- ===== src/Models/ResponseCache/Bounds.antt =====
-- How large the cache of crates/frankclaw-models/src/cache.rs grows.
use frankclaw.Prelude.{
  ℕ, zero, suc, ◌+◌, ◌-◌, ◌≤◌, ◌<◌, ◌≡◌, refl, max, ap, ◌∙◌, add_u64, String, string_eq, Bool, true,
  false, Option, none, some, Bool-cases, Option-cases, inl, inr, List, [], ◌∷◌, length, leb, ltb,
  ◌==◌, Map, insert, remove, retain, length-insert-le, length-insert_present, length-remove-le,
  arith,
}
use frankclaw.Prelude
use frankclaw.Models.ResponseCache.{
  ResponseCacheConfig, CacheEntry, ResponseCache, CompletionRequest, oldest_key, evict, is_fresh,
  new, lookup_key, store_key, lookup, store, clear, len, cache_key, no_tools,
}
use frankclaw.Models.ResponseCache.Calls.{Call, look, put, wipe, step, run, config-step}

module _ {Response : Type 0} where
  length-remove_here :
      (j k : String) (e : CacheEntry Response) (m : Map String (CacheEntry Response))
      → j ≡ k
      → length (remove k ((j, e) ∷ m)) < suc (length m)
  unfolding remove
  length-remove_here j k e m same = ground (arith, string_eq.same_iff j k, length-remove-le k m)

  length-remove_later :
      (j k : String) (e : CacheEntry Response) (m : Map String (CacheEntry Response))
      → length (remove k m) < length m
      → length (remove k ((j, e) ∷ m)) < suc (length m)
  unfolding remove
  length-remove_later j k e m less = elim (Bool-cases (j == k)) [
    | inl same ↦ rw same (omega arith)
    | inr other ↦ rw other (omega arith)
  ]

  oldest_key-smaller :
      (m : Map String (CacheEntry Response)) (k : String) (t : ℕ)
      → oldest_key m ≡ some (k, t)
      → length (remove k m) < length m
  unfolding oldest_key
  oldest_key-smaller [] k t h = cc
  oldest_key-smaller ((j, e) ∷ m) k t h = elim (Option-cases (oldest_key m)) [
    | inl absent ↦ length-remove_here j k e m (ground arith)
    | inr ((k', t'), found) ↦ elim (Bool-cases (ltb t' e.last_accessed)) [
      | inl earlier ↦ length-remove_later j k e m (oldest_key-smaller m k t (ground arith))
      | inr later ↦ length-remove_here j k e m (ground arith)
    ]
  ]

  oldest_key-empty : (m : Map String (CacheEntry Response)) → oldest_key m ≡ none → length m ≡ 0
  unfolding oldest_key
  oldest_key-empty [] h = refl
  oldest_key-empty ((j, e) ∷ m) h = absurd (ground (arith, Option-cases (oldest_key m)))

  -- Enough rounds make room for one entry, or empty the map.
  length-evict :
      (left max_entries : ℕ) (m : Map String (CacheEntry Response))
      → length m ≤ left
      → length (evict left max_entries m) < max 1 max_entries
  unfolding evict
  length-evict zero max_entries m h = omega arith
  length-evict (suc left) max_entries m h = elim (Bool-cases (leb max_entries (length m))) [
    | inr room ↦ rw (room, evict) (ground arith)
    | inl full ↦ elim (Option-cases (oldest_key m)) [
      | inl absent ↦ rw (full, absent, evict) (omega (arith, oldest_key-empty m absent))
      | inr ((k, t), found) ↦
          let less = oldest_key-smaller m k t found in
          rw (full, found, evict) (length-evict left max_entries (remove k m) (omega arith))
    ]
  ]

  abbrev IsBounded : ResponseCache Response → Type 0
  IsBounded c = length c.cache ≤ max 1 c.config.max_entries

  lookup_key-IsBounded :
      (key : String) (now : ℕ) (c : ResponseCache Response)
      → IsBounded c
      → IsBounded (lookup_key key now c).1
  unfolding lookup_key
  lookup_key-IsBounded key now c h = elim (Option-cases (Prelude.lookup key c.cache)) [
    | inl absent ↦ rw (absent, lookup_key) h
    | inr (e, found) ↦ elim (Bool-cases (is_fresh c.config.ttl now e)) [
      | inl fresh ↦
          rw (found, fresh, lookup_key)
            (omega (arith, length-insert_present key e _ c.cache found, h))
      | inr stale ↦ rw (found, stale, lookup_key) (omega (arith, length-remove-le key c.cache, h))
    ]
  ]

  store_key-IsBounded :
      (key : String) (r : Response) (now : ℕ) (c : ResponseCache Response)
      → length (store_key key r now c).cache ≤ max 1 c.config.max_entries
  unfolding store_key
  store_key-IsBounded key r now c =
      let live = retain (λ k e. is_fresh c.config.ttl now e) c.cache in
      omega (
        arith,
        length-evict (length live) c.config.max_entries live (omega arith),
        length-insert-le key
            (record { response = r; created_at = now; last_accessed = now; hit_count = 0 })
            (evict (length live) c.config.max_entries live),
      )

module _ {Response ToolCall Image Tool Other : Type 0} (sha256 : List ℕ → String) where
  -- A lookup that reaches the map is one under its key, with the request counted.
  lookup-IsBounded :
      (request : CompletionRequest ToolCall Image Tool Other) (now : ℕ) (c : ResponseCache Response)
      → IsBounded c
      → IsBounded (lookup sha256 request now c).1
  unfolding lookup
  lookup-IsBounded request now c h = elim (Bool-cases (no_tools request.tools)) [
    | inl cached ↦ rw cached (
        lookup_key-IsBounded (cache_key sha256 request) now
          (record c { request_count = add_u64 c.request_count 1 }) h)
    | inr other ↦ rw other h
  ]

  step-IsBounded :
      (c : ResponseCache Response) (call : Call Response ToolCall Image Tool Other)
      → IsBounded c
      → IsBounded (step sha256 c call)
  unfolding step store clear
  step-IsBounded c (look request now) h = lookup-IsBounded request now c h
  step-IsBounded c (put request response now) h = elim (Bool-cases (no_tools request.tools)) [
    | inl cached ↦ rw cached (store_key-IsBounded (cache_key sha256 request) response now c)
    | inr other ↦ rw other h
  ]
  step-IsBounded c wipe h = omega arith

  length-run :
      (config : ResponseCacheConfig) (c : ResponseCache Response)
      (calls : List (Call Response ToolCall Image Tool Other))
      → c.config ≡ config
      → IsBounded c
      → length (run sha256 c calls).cache ≤ max 1 config.max_entries
  unfolding run
  length-run config c [] same h =
      omega (arith, ap (λ (k : ResponseCacheConfig). max 1 k.max_entries) same, h)
  length-run config c (call ∷ calls) same h =
      length-run config (step sha256 c call) calls (config-step sha256 c call ∙ same)
        (step-IsBounded c call h)

  -- After any calls in any order on a new cache, it holds no more entries than its configured maximum,
  -- and one entry when that maximum is 0.
  pub len-run-le :
      (config : ResponseCacheConfig) (calls : List (Call Response ToolCall Image Tool Other))
      → len (run sha256 (new config) calls) ≤ max 1 config.max_entries
  unfolding new len
  len-run-le config calls = length-run config (new config) calls refl (omega arith)
