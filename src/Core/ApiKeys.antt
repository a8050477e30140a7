-- ===== src/Core/ApiKeys.antt =====
-- crates/frankclaw-core/src/api_keys.rs. A secret is passed through unread; the instants that a method
-- reads from the clock are arguments.
pub mod Selection
pub mod Entries
pub mod Rounds
mod Tests
use frankclaw.Prelude.{
  ℕ, zero, suc, ◌+◌, ◌-◌, ◌*◌, ◌^◌, min, String, string_eq, Bool, true, false, Option, none, some,
  is_some, List, [], ◌∷◌, map, ltb, leb, add_u32, from_secs, length, filter, Map, lookup, insert,
  modify, if◌then◌else◌,
}

-- `MAX_COOLDOWN`.
abbrev pub max_cooldown : ℕ
max_cooldown = from_secs 3600

-- `BASE_COOLDOWN`.
abbrev pub base_cooldown : ℕ
base_cooldown = from_secs 60

pub data FailureReason : Type 0 where
  rate_limit auth_error overloaded timeout billing unknown : FailureReason

pub record KeyStats : Type 0 where
  pub last_used : Option ℕ
  pub cooldown_until : Option ℕ
  pub consecutive_failures : ℕ  -- u32
  pub last_failure_reason : Option FailureReason

-- `KeyStats::new`.
abbrev pub new_stats : KeyStats
new_stats = record {
  last_used = none;
  cooldown_until = none;
  consecutive_failures = 0;
  last_failure_reason = none;
}

unfoldable pub is_available : ℕ → KeyStats → Bool
is_available now s = elim s.cooldown_until [ none ↦ true | some until ↦ leb until now ]

unfoldable pub cooldown_remaining : ℕ → KeyStats → Option ℕ
cooldown_remaining now s = elim s.cooldown_until [
  | none ↦ none
  | some until ↦ if leb now until then some (until - now) else none
]

-- `5^min(failures - 1, 5)` times the base, at most the maximum.
base_of : FailureReason → ℕ
base_of auth_error = from_secs 300
base_of billing = from_secs 300
base_of _ = base_cooldown

unfoldable pub compute_cooldown : ℕ → FailureReason → ℕ
unfolding base_of
compute_cooldown consecutive_failures reason =
    min (base_of reason * 5 ^ min (consecutive_failures - 1) 5) max_cooldown

-- The reset of an expired cooldown.
pub clear_expired : ℕ → KeyStats → KeyStats
clear_expired now s = elim s.cooldown_until [
  | none ↦ s
  | some until ↦
      if leb until now
      then record s { cooldown_until = none; consecutive_failures = 0; last_failure_reason = none }
      else s
]

-- `<` on `Option<Instant>`: `None` comes first.
abbrev pub used_earlier : Option ℕ → Option ℕ → Bool
used_earlier none none = false
used_earlier none (some b) = true
used_earlier (some a) none = false
used_earlier (some a) (some b) = ltb a b

-- `enumerate().filter(is_available).min_by_key(last_used)`: the first of the least, with its index.
pub oldest_available : ℕ → ℕ → List KeyStats → Option (ℕ × Option ℕ)
oldest_available now index [] = none
oldest_available now index (s ∷ ss) =
    let rest = oldest_available now (index + 1) ss in
    if is_available now s
    then elim rest [
      | none ↦ some (index, s.last_used)
      | some (i, used) ↦
          if used_earlier used s.last_used then some (i, used) else some (index, s.last_used)
    ]
    else rest

-- `filter(last_used.is_some()).max_by_key(last_used)`: the last of the greatest, with its index.
pub most_recent : ℕ → List KeyStats → Option (ℕ × ℕ)
most_recent index [] = none
most_recent index (s ∷ ss) =
    let rest = most_recent (index + 1) ss in
    elim s.last_used [
      | none ↦ rest
      | some used ↦ elim rest [
        | none ↦ some (index, used)
        | some (i, later) ↦ if ltb later used then some (index, used) else some (i, later)
      ]
    ]

-- `stats[index]` is changed in place.
pub update_at : ℕ → (KeyStats → KeyStats) → List KeyStats → List KeyStats
update_at index f [] = []
update_at zero f (s ∷ ss) = f s ∷ ss
update_at (suc index) f (s ∷ ss) = s ∷ update_at index f ss

pub key_at : {Key : Type 0} → List Key → ℕ → Option Key
key_at [] index = none
key_at (k ∷ ks) zero = some k
key_at (k ∷ ks) (suc index) = key_at ks index

-- What a failure does to the entry.
pub fail_at : ℕ → FailureReason → KeyStats → KeyStats
fail_at now reason s =
    let failures = add_u32 s.consecutive_failures 1 in
    record s {
      consecutive_failures = failures;
      last_failure_reason = some reason;
      cooldown_until = some (now + compute_cooldown failures reason);
    }

-- `filter_map(cooldown_remaining).min()`.
soonest : ℕ → List KeyStats → Option ℕ
soonest now [] = none
soonest now (s ∷ ss) =
    let rest = soonest now ss in
    elim (cooldown_remaining now s) [
      | none ↦ rest
      | some wait ↦ elim rest [ none ↦ some wait | some other ↦ some (min wait other) ]
    ]

module _ (Key : Type 0) where
  pub record KeyRotator : Type 0 where
    pub keys : List Key
    pub stats : List KeyStats

  pub record ProviderKeyManager : Type 0 where
    pub rotators : Map String KeyRotator

module _ {Key : Type 0} where
  -- `KeyRotator::new`, where the list of keys is not empty.
  unfoldable pub new : List Key → KeyRotator Key
  new keys = record { keys = keys; stats = map (λ k. new_stats) keys }

  unfoldable pub select : ℕ → KeyRotator Key → Option Key × KeyRotator Key
  unfolding clear_expired oldest_available update_at key_at
  select now r =
      let stats = map (clear_expired now) r.stats in
      elim (oldest_available now 0 stats) [
        | none ↦ (none, record r { stats = stats })
        | some (index, used) ↦ (
          key_at r.keys index,
          record r { stats = update_at index (λ s. record s { last_used = some now }) stats },
        )
      ]

  -- `most_recent_stat_mut`, with what is done to the entry.
  with_most_recent : (KeyStats → KeyStats) → KeyRotator Key → KeyRotator Key
  unfolding most_recent update_at
  with_most_recent f r = elim (most_recent 0 r.stats) [
    | none ↦ r
    | some (index, used) ↦ record r { stats = update_at index f r.stats }
  ]

  unfoldable pub mark_success : KeyRotator Key → KeyRotator Key
  unfolding with_most_recent
  mark_success = with_most_recent (λ s. record s {
    consecutive_failures = 0;
    cooldown_until = none;
    last_failure_reason = none;
  })

  unfoldable pub mark_failure : ℕ → FailureReason → KeyRotator Key → KeyRotator Key
  unfolding with_most_recent fail_at
  mark_failure now reason = with_most_recent (fail_at now reason)

  unfoldable pub available_count : ℕ → KeyRotator Key → ℕ
  available_count now r = length (filter (is_available now) r.stats)

  unfoldable pub total_count : KeyRotator Key → ℕ
  total_count r = length r.keys

  unfoldable pub next_available_in : ℕ → KeyRotator Key → Option ℕ
  unfolding soonest
  next_available_in now r = soonest now r.stats

  -- `ProviderKeyManager::new`.
  unfoldable pub new_manager : ProviderKeyManager Key
  new_manager = record { rotators = [] }

  unfoldable pub register : String → List Key → ProviderKeyManager Key → ProviderKeyManager Key
  register provider [] m = m
  register provider (k ∷ ks) m = record m { rotators = insert provider (new (k ∷ ks)) m.rotators }

  -- `ProviderKeyManager::select`.
  unfoldable pub select_for :
      ℕ → String → ProviderKeyManager Key → Option Key × ProviderKeyManager Key
  select_for now provider m = elim (lookup provider m.rotators) [
    | none ↦ (none, m)
    | some r ↦
        ((select now r).0, record m { rotators = insert provider (select now r).1 m.rotators })
  ]

  -- `ProviderKeyManager::mark_success`.
  unfoldable pub mark_success_for : String → ProviderKeyManager Key → ProviderKeyManager Key
  mark_success_for provider m = record m { rotators = modify provider mark_success m.rotators }

  -- `ProviderKeyManager::mark_failure`.
  unfoldable pub mark_failure_for :
      ℕ → String → FailureReason → ProviderKeyManager Key → ProviderKeyManager Key
  mark_failure_for now provider reason m = record m {
    rotators = modify provider (mark_failure now reason) m.rotators;
  }
