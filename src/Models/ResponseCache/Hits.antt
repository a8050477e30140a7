-- ===== src/Models/ResponseCache/Hits.antt =====
-- What a hit of crates/frankclaw-models/src/cache.rs returns.
use frankclaw.Prelude.{
  ℕ, zero, suc, ◌-◌, ◌<◌, ◌≡◌, refl, ap, add_u64, ◌∙◌, sym, String, string_eq, Bool, true, false,
  Option, none, some, Bool-cases, Option-cases, inl, inr, List, [], ◌∷◌, length, leb, ltb, ◌==◌,
  Map, insert, remove, retain, Distinct, Distinct-insert, Distinct-remove, Distinct-retain,
  lookup-insert, lookup-remove, lookup-retain, kept, if◌then◌else◌, arith,
}
use frankclaw.Prelude
use frankclaw.Models.ResponseCache.{
  ResponseCacheConfig, CacheEntry, ResponseCache, CompletionRequest, oldest_key, evict, is_fresh,
  new, lookup_key, store_key, lookup, store, clear, cache_key, no_tools,
}
use frankclaw.Models.ResponseCache.Calls.{Call, look, put, wipe, step, run, config-run}

-- What `retain` leaves stood there.
kept-some :
    {V : Type 0} (keep : String → V → Bool) (k : String) (held : Option V) (v : V)
    → kept keep k held ≡ some v
    → held ≡ some v
kept-some keep k none v h = h
kept-some keep k (some w) v h = ground arith

module _ {Response : Type 0} where
  Distinct-evict :
      (left max_entries : ℕ) (m : Map String (CacheEntry Response))
      → Distinct m
      → Distinct (evict left max_entries m)
  unfolding evict
  Distinct-evict zero max_entries m d = d
  Distinct-evict (suc left) max_entries m d = elim (Bool-cases (leb max_entries (length m))) [
    | inr room ↦ rw (room, evict) d
    | inl full ↦ elim (Option-cases (oldest_key m)) [
      | inl absent ↦ rw (full, absent, evict) d
      | inr ((k, t), found) ↦
          rw (full, found, evict)
            (Distinct-evict left max_entries (remove k m) (Distinct-remove k m d))
    ]
  ]

  -- What is left after an eviction stood there before.
  lookup-evict :
      (left max_entries : ℕ) (k : String) (m : Map String (CacheEntry Response))
      (e : CacheEntry Response)
      → Prelude.lookup k (evict left max_entries m) ≡ some e
      → Prelude.lookup k m ≡ some e
  unfolding evict
  lookup-evict zero max_entries k m e h = h
  lookup-evict (suc left) max_entries k m e h = elim (Bool-cases (leb max_entries (length m))) [
    | inr room ↦ rw (room, evict) at h
    | inl full ↦ elim (Option-cases (oldest_key m)) [
      | inl absent ↦ rw (full, absent, evict) at h
      | inr ((k', t), found) ↦
          let before =
            lookup-evict left max_entries k (remove k' m) e (rw (full, found, evict) at h) in
          ground (arith, before, lookup-remove k' k m)
    ]
  ]

  -- What an entry keeps of its store.
  abbrev store_of : CacheEntry Response → Option (Response × ℕ)
  store_of e = some (e.response, e.created_at)

  -- The entry under `k` is of the store `held`.
  abbrev Tracks : String → Option (Response × ℕ) → ResponseCache Response → Type 0
  Tracks k held c =
      Distinct c.cache
      × ((e : CacheEntry Response) → Prelude.lookup k c.cache ≡ some e → held ≡ store_of e)

  empty-Tracks :
      (k : String) (held : Option (Response × ℕ)) (config : ResponseCacheConfig) (requests hits : ℕ)
      → Tracks k held
          (record { cache = []; config = config; request_count = requests; total_hit_count = hits })
  unfolding Prelude.lookup
  empty-Tracks k held config requests hits = (tt, λ e at. absurd (ground (arith, at)))

  insert-Tracked :
      (k key : String) (held : Option (Response × ℕ)) (e e' touched : CacheEntry Response)
      (m : Map String (CacheEntry Response))
      → Prelude.lookup key m ≡ some e
      → store_of touched ≡ store_of e
      → ((e : CacheEntry Response) → Prelude.lookup k m ≡ some e → held ≡ store_of e)
      → Prelude.lookup k (insert key touched m) ≡ some e'
      → held ≡ store_of e'
  insert-Tracked k key held e e' touched m found same_stamp tracked at =
      let stands = sym (lookup-insert key k touched m) ∙ at in
      elim (Bool-cases (key == k)) [
        | inl same ↦
            let key_is_k = (string_eq.same_iff key k).0 same in
            let here = tracked e (rw key_is_k at found) in
            let shown = rw same at stands in
            let is_touched : touched ≡ e' = ground (arith, shown) in
            here ∙ sym same_stamp ∙ ap store_of is_touched
        | inr other ↦ tracked e' (rw other at stands)
      ]

  remove-Tracked :
      (k key : String) (held : Option (Response × ℕ)) (e' : CacheEntry Response)
      (m : Map String (CacheEntry Response))
      → ((e : CacheEntry Response) → Prelude.lookup k m ≡ some e → held ≡ store_of e)
      → Prelude.lookup k (remove key m) ≡ some e'
      → held ≡ store_of e'
  remove-Tracked k key held e' m tracked at =
      let stands = sym (lookup-remove key k m) ∙ at in
      elim (Bool-cases (key == k)) [
        | inl same ↦ absurd (ground (arith, stands))
        | inr other ↦ tracked e' (rw other at stands)
      ]

  lookup_key-Tracks :
      (k : String) (held : Option (Response × ℕ)) (key : String) (now : ℕ)
      (c : ResponseCache Response)
      → Tracks k held c
      → Tracks k held (lookup_key key now c).1
  unfolding lookup_key
  lookup_key-Tracks k held key now c h = elim (Option-cases (Prelude.lookup key c.cache)) [
    | inl absent ↦ rw (absent, lookup_key) h
    | inr (e, found) ↦ elim (Bool-cases (is_fresh c.config.ttl now e)) [
      | inl fresh ↦
          rw (found, fresh, lookup_key)
            (
              Distinct-insert key _ c.cache h.0,
              λ e' at. insert-Tracked k key held e e' _ c.cache found refl h.1 at,
            )
      | inr stale ↦
          rw (found, stale, lookup_key)
            (Distinct-remove key c.cache h.0, λ e' at. remove-Tracked k key held e' c.cache h.1 at)
    ]
  ]

  -- After a store under `key`, the entry there is the stored one, and what stands under another key stood there.
  store_key-Tracks :
      (k : String) (held : Option (Response × ℕ)) (key : String) (response : Response) (now : ℕ)
      (c : ResponseCache Response)
      → Tracks k held c
      → Tracks k (if key == k then some (response, now) else held) (store_key key response now c)
  unfolding store_key
  store_key-Tracks k held key response now c h =
      let live = retain (λ k e. is_fresh c.config.ttl now e) c.cache in
      let room = evict (length live) c.config.max_entries live in
      let distinct = Distinct-retain (λ k e. is_fresh c.config.ttl now e) c.cache h.0 in
      let entry : CacheEntry Response = record {
        response = response;
        created_at = now;
        last_accessed = now;
        hit_count = 0;
      } in
      (
        Distinct-insert key _ room
            (Distinct-evict (length live) c.config.max_entries live distinct),
        λ e at.
            let stands = sym (lookup-insert key k entry room) ∙ at in
            elim (Bool-cases (key == k)) [
              | inl same ↦
                  let shown = rw same at stands in
                  let is_entry : entry ≡ e = ground (arith, shown) in rw same (ap store_of is_entry)
              | inr other ↦
                  let before =
                    lookup-evict (length live) c.config.max_entries k live e (rw other at stands) in
                  let is_kept =
                    sym (lookup-retain (λ k e. is_fresh c.config.ttl now e) k c.cache h.0)
                    ∙ before in
                  rw other (
                    h.1 e (
                      kept-some (λ k e. is_fresh c.config.ttl now e) k (Prelude.lookup k c.cache) e
                        is_kept))
            ],
      )

  lookup_key-hit :
      (key : String) (now : ℕ) (c : ResponseCache Response) (response : Response)
      → (lookup_key key now c).0 ≡ some response
      → (e : CacheEntry Response) × ((Prelude.lookup key c.cache ≡ some e)
          × ((e.response ≡ response) × (now - e.created_at < c.config.ttl)))
  unfolding lookup_key is_fresh
  lookup_key-hit key now c response h = elim (Option-cases (Prelude.lookup key c.cache)) [
    | inl absent ↦ absurd (ground (arith, absent))
    | inr (e, found) ↦ (e, (found, (ground (arith, found), ground (arith, found))))
  ]

module _ {Response ToolCall Image Tool Other : Type 0} (sha256 : List ℕ → String) where
  -- What stands stored under `k` after a call.
  stored :
      String
      → Option (Response × ℕ)
      → Call Response ToolCall Image Tool Other
      → Option (Response × ℕ)
  stored k held (look request now) = held
  stored k held (put request response now) =
      if no_tools request.tools
      then if cache_key sha256 request == k then some (response, now) else held
      else held
  stored k held wipe = none

  pub last_store :
      String
      → Option (Response × ℕ)
      → List (Call Response ToolCall Image Tool Other)
      → Option (Response × ℕ)
  unfolding stored
  last_store k held [] = held
  last_store k held (call ∷ calls) = last_store k (stored k held call) calls

  lookup-Tracks :
      (k : String) (held : Option (Response × ℕ))
      (request : CompletionRequest ToolCall Image Tool Other) (now : ℕ) (c : ResponseCache Response)
      → Tracks k held c
      → Tracks k held (lookup sha256 request now c).1
  unfolding lookup
  lookup-Tracks k held request now c h = elim (Bool-cases (no_tools request.tools)) [
    | inl cached ↦ rw cached (
        lookup_key-Tracks k held (cache_key sha256 request) now
          (record c { request_count = add_u64 c.request_count 1 }) h)
    | inr other ↦ rw other h
  ]

  step-Tracks :
      (k : String) (held : Option (Response × ℕ)) (c : ResponseCache Response)
      (call : Call Response ToolCall Image Tool Other)
      → Tracks k held c
      → Tracks k (stored k held call) (step sha256 c call)
  unfolding step store clear stored
  step-Tracks k held c (look request now) h = lookup-Tracks k held request now c h
  step-Tracks k held c (put request response now) h = elim (Bool-cases (no_tools request.tools)) [
    | inl cached ↦ rw cached (store_key-Tracks k held (cache_key sha256 request) response now c h)
    | inr other ↦ rw other h
  ]
  step-Tracks k held c wipe h = empty-Tracks k none c.config c.request_count c.total_hit_count

  run-Tracks :
      (k : String) (held : Option (Response × ℕ)) (c : ResponseCache Response)
      (calls : List (Call Response ToolCall Image Tool Other))
      → Tracks k held c
      → Tracks k (last_store k held calls) (run sha256 c calls)
  unfolding run last_store
  run-Tracks k held c [] h = h
  run-Tracks k held c (call ∷ calls) h =
      run-Tracks k (stored k held call) (step sha256 c call) calls (step-Tracks k held c call h)

  lookup-found :
      (c : ResponseCache Response) (request : CompletionRequest ToolCall Image Tool Other) (now : ℕ)
      (response : Response)
      → (lookup sha256 request now c).0 ≡ some response
      → (no_tools request.tools ≡ true)
        × ((e : CacheEntry Response) × ((Prelude.lookup (cache_key sha256 request) c.cache ≡ some e)
              × ((e.response ≡ response) × (now - e.created_at < c.config.ttl))))
  unfolding lookup
  lookup-found c request now response h = elim (Bool-cases (no_tools request.tools)) [
    | inl cached ↦ (
      cached,
      lookup_key-hit (cache_key sha256 request) now
          (record c { request_count = add_u64 c.request_count 1 }) response (rw cached at h),
    )
    | inr other ↦ absurd (ground (arith, rw other at h))
  ]

  -- When a lookup at `now`, after any calls in any order on a new cache, returns a response, its request
  -- has no tools, that response was the last one stored under the key of the request since the last
  -- clear, and that store is less than the configured time to live old.
  pub lookup-hit :
      (config : ResponseCacheConfig) (calls : List (Call Response ToolCall Image Tool Other))
      (request : CompletionRequest ToolCall Image Tool Other) (now : ℕ) (response : Response)
      → (lookup sha256 request now (run sha256 (new config) calls)).0 ≡ some response
      → (no_tools request.tools ≡ true)
        × ((at : ℕ) × ((last_store (cache_key sha256 request) none calls ≡ some (response, at))
              × (now - at < config.ttl)))
  unfolding new
  lookup-hit config calls request now response h =
      let hit = lookup-found (run sha256 (new config) calls) request now response h in
      let e = hit.1.0 in
      let tracked =
        run-Tracks (cache_key sha256 request) none (new config) calls
          (empty-Tracks (cache_key sha256 request) none config 0 0) in
      (
        hit.0,
        (
          e.created_at,
          (
            tracked.1 e hit.1.1.0 ∙ ap (λ x. some (x, e.created_at)) hit.1.1.1.0,
            omega (
              arith,
              ap (λ (k : ResponseCacheConfig). k.ttl) (config-run sha256 (new config) calls),
              hit.1.1.1.1,
            ),
          ),
        ),
      )
