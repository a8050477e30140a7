-- ===== src/Core/ApiKeys/Selection.antt =====
-- Which key the rotator of crates/frankclaw-core/src/api_keys.rs selects.
use frankclaw.Prelude.{
  ℕ, ◌+◌, ◌≡◌, refl, sym, ap, true, false, Option, none, some, Bool-cases, Option-cases, inl, inr,
  List, [], ◌∷◌, ◌++◌, map, length, All, All-imp, arith,
}
use frankclaw.Core.ApiKeys.{
  KeyStats, KeyRotator, is_available, clear_expired, used_earlier, oldest_available, update_at,
  select, key_at,
}

-- The cooldown is over, or there is none.
abbrev pub IsAvailable : ℕ → KeyStats → Type 0
IsAvailable now s = is_available now s ≡ true

-- How the list splits around the entry that is chosen; no available entry was used earlier.
pub record IsOldest (now index : ℕ) (ss : List KeyStats) (i : ℕ) (used : Option ℕ) : Type 0 where
  pub before : List KeyStats
  pub chosen : KeyStats
  pub after : List KeyStats
  pub split : ss ≡ before ++ (chosen ∷ after)
  pub place : i ≡ index + length before
  pub last_used : used ≡ chosen.last_used
  pub available : IsAvailable now chosen
  pub oldest : All (λ s. IsAvailable now s → used_earlier s.last_used used ≡ false) ss

-- The order of the last uses is total.
used_earlier-chain :
    (a b c : Option ℕ)
    → used_earlier a b ≡ false
    → used_earlier b c ≡ false
    → used_earlier a c ≡ false
used_earlier-chain none none none h k = refl
used_earlier-chain none none (some c) h k = cc
used_earlier-chain none (some b) c h k = cc
used_earlier-chain (some a) none none h k = refl
used_earlier-chain (some a) none (some c) h k = cc
used_earlier-chain (some a) (some b) none h k = refl
used_earlier-chain (some a) (some b) (some c) h k = ground arith

used_earlier_irrefl : (a : Option ℕ) → used_earlier a a ≡ false
used_earlier_irrefl none = refl
used_earlier_irrefl (some a) = ground arith

used_earlier-asym : (a b : Option ℕ) → used_earlier a b ≡ true → used_earlier b a ≡ false
used_earlier-asym none none h = cc
used_earlier-asym none (some b) h = refl
used_earlier-asym (some a) none h = cc
used_earlier-asym (some a) (some b) h = ground arith

module _ {now index i : ℕ} {ss : List KeyStats} {used : Option ℕ} (s : KeyStats) where
  -- The choice among the others stands.
  skip :
      IsOldest now (index + 1) ss i used
      → (IsAvailable now s → used_earlier s.last_used used ≡ false)
      → IsOldest now index (s ∷ ss) i used
  skip c h = record {
    before = s ∷ c.before;
    chosen = c.chosen;
    after = c.after;
    split = ap (λ l. s ∷ l) c.split;
    place = omega (arith, c.place);
    last_used = c.last_used;
    available = c.available;
    oldest = (h, c.oldest);
  }

  -- The first entry is the choice.
  take :
      index ≡ i
      → s.last_used ≡ used
      → IsAvailable now s
      → All (λ x. IsAvailable now x → used_earlier x.last_used s.last_used ≡ false) ss
      → IsOldest now index (s ∷ ss) i used
  take place same_use free others = record {
    before = [];
    chosen = s;
    after = ss;
    split = refl;
    place = omega arith;
    last_used = sym same_use;
    available = free;
    oldest = (
      λ a. rw (← same_use) (used_earlier_irrefl s.last_used),
      All-imp (λ x c a. rw (← same_use) (c a)) ss others,
    );
  }

oldest_available-none :
    (now index : ℕ) (ss : List KeyStats)
    → oldest_available now index ss ≡ none
    → All (λ s. is_available now s ≡ false) ss
unfolding oldest_available
oldest_available-none now index [] h = tt
oldest_available-none now index (s ∷ ss) h =
    elim (Option-cases (oldest_available now (index + 1) ss)) [
      | inl absent ↦ (ground arith, oldest_available-none now (index + 1) ss absent)
      | inr ((i, used), found) ↦ absurd (ground arith)
    ]

oldest_available-IsOldest :
    (now index : ℕ) (ss : List KeyStats) (i : ℕ) (used : Option ℕ)
    → oldest_available now index ss ≡ some (i, used)
    → IsOldest now index ss i used
unfolding oldest_available
oldest_available-IsOldest now index [] i used h = cc
oldest_available-IsOldest now index (s ∷ ss) i used h = elim (Bool-cases (is_available now s)) [
  | inr cooling ↦
      let rest = oldest_available-IsOldest now (index + 1) ss i used (ground arith) in
      skip s rest (λ a. absurd (ground arith))
  | inl free ↦ elim (Option-cases (oldest_available now (index + 1) ss)) [
    | inl absent ↦
        let others = oldest_available-none now (index + 1) ss absent in
        let place : index ≡ i = ground arith in
        let same_use : s.last_used ≡ used = ground arith in
        take s place same_use free (All-imp (λ x c a. absurd (ground arith)) ss others)
    | inr ((j, u), found) ↦
        let rest = oldest_available-IsOldest now (index + 1) ss j u found in
        elim (Bool-cases (used_earlier u s.last_used)) [
          | inl earlier ↦
              let place : j ≡ i = ground arith in
              let same_use : u ≡ used = ground arith in
              rw (← place, ← same_use) (skip s rest (λ a. used_earlier-asym u s.last_used earlier))
          | inr later ↦
              let place : index ≡ i = ground arith in
              let same_use : s.last_used ≡ used = ground arith in
              take s place same_use free (
                All-imp (λ x c a. used_earlier-chain x.last_used u s.last_used (c a) later) ss
                  rest.oldest)
        ]
  ]
]

-- What a selection yields: no key, or the key of the entry that is chosen among those whose expired
-- cooldowns are cleared, with its use recorded.
pub data Selects {Key : Type 0} (now : ℕ) (r r' : KeyRotator Key) : Option Key → Type 0 where
  nothing :
      All (λ s. is_available now s ≡ false) (map (clear_expired now) r.stats)
      → r' ≡ record r { stats = map (clear_expired now) r.stats }
      → Selects now r r' none
  key_of :
      (i : ℕ) (used : Option ℕ)
      → (c : IsOldest now 0 (map (clear_expired now) r.stats) i used)
      → r' ≡ record r { stats = c.before ++ (record c.chosen { last_used = some now } ∷ c.after) }
      → Selects now r r' (key_at r.keys i)

pub update_at-append :
    (f : KeyStats → KeyStats) (before after : List KeyStats) (s : KeyStats)
    → update_at (length before) f (before ++ (s ∷ after)) ≡ before ++ (f s ∷ after)
unfolding update_at
update_at-append f [] after s = refl
update_at-append f (b ∷ bs) after s = ap (λ l. b ∷ l) (update_at-append f bs after s)

-- A selection gives no key only if every key cools down, and else the key of an available entry that no
-- other available entry was used before; nothing changes but cleared cooldowns and that entry's use.
pub select-Selects :
    {Key : Type 0} (now : ℕ) (r : KeyRotator Key) → Selects now r (select now r).1 (select now r).0
unfolding select
select-Selects now r =
    elim (Option-cases (oldest_available now 0 (map (clear_expired now) r.stats))) [
      | inl absent ↦
          rw (absent, select)
            (nothing (oldest_available-none now 0 (map (clear_expired now) r.stats) absent) refl)
      | inr ((i, used), found) ↦
          let c = oldest_available-IsOldest now 0 (map (clear_expired now) r.stats) i used found in
          let place : i ≡ length c.before = omega (arith, c.place) in
          let touched =
            update_at-append (λ s. record s { last_used = some now }) c.before c.after c.chosen in
          rw (found, select)
            (key_of i used c (ap (λ l. record r { stats = l }) (rw (place, c.split) touched)))
    ]
