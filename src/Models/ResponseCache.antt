-- ===== src/Models/ResponseCache.antt =====
-- crates/frankclaw-models/src/cache.rs. Each method is one step under the mutex. SHA-256, with its
-- hexadecimal text, is an argument, and so are the instants read from the clock; the log of statistics
-- is left out.
pub mod Calls
pub mod Bounds
pub mod Hits
pub mod Keys
mod Tests
use frankclaw.Prelude.{
  ℕ, zero, suc, ◌+◌, ◌-◌, String, string_eq, Bool, true, false, Option, none, some, List, [], ◌∷◌,
  ◌++◌, not, ltb, leb, nat_eqb, add_u64, from_secs, length, chars, Map, insert, remove, retain,
  if◌then◌else◌,
}
use frankclaw.Prelude
use frankclaw.Core.Message.{Role, system, user, assistant, tool, CompletionMessage}

pub record ResponseCacheConfig : Type 0 where
  pub ttl : ℕ
  pub max_entries : ℕ

-- `ResponseCacheConfig::default`.
abbrev pub default_config : ResponseCacheConfig
default_config = record { ttl = from_secs 3600; max_entries = 1000 }

module _ (Response : Type 0) where
  pub record CacheEntry : Type 0 where
    pub response : Response
    pub created_at : ℕ
    pub last_accessed : ℕ
    pub hit_count : ℕ  -- u64

  pub record ResponseCache : Type 0 where
    pub cache : Map String CacheEntry
    pub config : ResponseCacheConfig
    pub request_count : ℕ  -- u64
    pub total_hit_count : ℕ  -- u64

-- `CompletionRequest`; a temperature and a limit are the bytes of `to_le_bytes`, and `Other` is what the
-- cache does not read.
pub record CompletionRequest (ToolCall Image Tool Other : Type 0) : Type 0 where
  pub model_id : List ℕ
  pub messages : List (CompletionMessage ToolCall Image)
  pub max_tokens : Option (List ℕ)
  pub temperature : Option (List ℕ)
  pub system : Option (List ℕ)
  pub tools : List Tool
  pub other : Other

-- `format!("{:?}", msg.role)`.
pub role_name : Role → List ℕ
role_name Role.system = chars "System"
role_name user = chars "User"
role_name assistant = chars "Assistant"
role_name tool = chars "Tool"

-- `|` and `:`.
abbrev pub bar : ℕ
bar = 124

abbrev pub colon : ℕ
colon = 58

-- `if let Some(bytes) = ..`.
given : Option (List ℕ) → List ℕ
given none = []
given (some bytes) = bytes

module _ {ToolCall Image : Type 0} where
  -- What the loop over the messages feeds to the hash.
  message_bytes : List (CompletionMessage ToolCall Image) → List ℕ
  unfolding role_name
  message_bytes [] = []
  message_bytes (msg ∷ msgs) =
      role_name msg.role ++ (colon ∷ (msg.content ++ (bar ∷ message_bytes msgs)))

module _ {ToolCall Image Tool Other : Type 0} where
  -- All that is fed to the hash.
  key_bytes : CompletionRequest ToolCall Image Tool Other → List ℕ
  unfolding message_bytes given
  key_bytes request =
      request.model_id
      ++ (bar
          ∷ (message_bytes request.messages
              ++ (given request.max_tokens
                  ++ (bar ∷ (given request.temperature ++ (bar ∷ given request.system))))))

  unfoldable pub cache_key :
      (List ℕ → String) → CompletionRequest ToolCall Image Tool Other → String
  unfolding key_bytes
  cache_key sha256 request = sha256 (key_bytes request)

-- `iter().min_by_key(last_accessed)`: the key of the first of the least, with its access.
oldest_key : {Response : Type 0} → Map String (CacheEntry Response) → Option (String × ℕ)
oldest_key [] = none
oldest_key ((k, e) ∷ m) =
    let rest = oldest_key m in
    elim rest [
      | none ↦ some (k, e.last_accessed)
      | some (k', t) ↦ if ltb t e.last_accessed then some (k', t) else some (k, e.last_accessed)
    ]

-- `while guard.len() >= max_entries`; each round removes an entry, and there are `left` at most.
evict :
    {Response : Type 0}
    → ℕ
    → ℕ
    → Map String (CacheEntry Response)
    → Map String (CacheEntry Response)
unfolding oldest_key
evict zero max_entries m = m
evict (suc left) max_entries m =
    let smaller = λ (k : String). evict left max_entries (remove k m) in
    if leb max_entries (length m)
    then elim (oldest_key m) [ none ↦ m | some (k, t) ↦ smaller k ]
    else m

-- `now.duration_since(entry.created_at) < ttl`.
is_fresh : {Response : Type 0} → ℕ → ℕ → CacheEntry Response → Bool
is_fresh ttl now entry = ltb (now - entry.created_at) ttl

-- `tools.is_empty()`.
pub no_tools : {Tool : Type 0} → List Tool → Bool
no_tools [] = true
no_tools (t ∷ ts) = false

module _ {Response : Type 0} where
  unfoldable pub new : ResponseCacheConfig → ResponseCache Response
  new config = record { cache = []; config = config; request_count = 0; total_hit_count = 0 }

  -- `guard.get_mut(&key)` and what follows.
  lookup_key : String → ℕ → ResponseCache Response → Option Response × ResponseCache Response
  unfolding is_fresh
  lookup_key key now c = elim (Prelude.lookup key c.cache) [
    | none ↦ (none, c)
    | some entry ↦
        if is_fresh c.config.ttl now entry
        then (
          some entry.response,
          record c {
            cache =
                insert key
                  (record entry { last_accessed = now; hit_count = add_u64 entry.hit_count 1 })
                  c.cache;
            total_hit_count = add_u64 c.total_hit_count 1;
          },
        )
        else (none, record c { cache = remove key c.cache })
  ]

  store_key : String → Response → ℕ → ResponseCache Response → ResponseCache Response
  unfolding is_fresh evict
  store_key key response now c =
      let live = retain (λ k e. is_fresh c.config.ttl now e) c.cache in
      let room = evict (length live) c.config.max_entries live in
      record c {
        cache =
            insert key
              (record { response = response; created_at = now; last_accessed = now; hit_count = 0 })
              room;
      }

  module _ {ToolCall Image Tool Other : Type 0} (sha256 : List ℕ → String) where
    unfoldable pub lookup :
        CompletionRequest ToolCall Image Tool Other
        → ℕ
        → ResponseCache Response
        → Option Response × ResponseCache Response
    unfolding lookup_key no_tools
    lookup request now c =
        if not (no_tools request.tools)
        then (none, c)
        else lookup_key (cache_key sha256 request) now
            (record c { request_count = add_u64 c.request_count 1 })

    unfoldable pub store :
        CompletionRequest ToolCall Image Tool Other
        → Response
        → ℕ
        → ResponseCache Response
        → ResponseCache Response
    unfolding store_key no_tools
    store request response now c =
        if not (no_tools request.tools)
        then c
        else store_key (cache_key sha256 request) response now c

  unfoldable pub len : ResponseCache Response → ℕ
  len c = length c.cache

  unfoldable pub is_empty : ResponseCache Response → Bool
  is_empty c = nat_eqb (length c.cache) 0

  unfoldable pub total_hits : ResponseCache Response → ℕ
  total_hits c = c.total_hit_count

  unfoldable pub clear : ResponseCache Response → ResponseCache Response
  clear c = record c { cache = [] }
