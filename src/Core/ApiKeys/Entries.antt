-- ===== src/Core/ApiKeys/Entries.antt =====
-- The statistics of a key of crates/frankclaw-core/src/api_keys.rs between two calls.
use frankclaw.Prelude.{
  ℕ, ◌+◌, ◌≤◌, ◌<◌, ◌≡◌, refl, Option, none, some, Option-cases, Bool-cases, inl, inr, List, [],
  ◌∷◌, ◌++◌, length, All, All-imp, All-append, arith, leb,
}
use frankclaw.Core.ApiKeys.{
  KeyStats, FailureReason, is_available, clear_expired, most_recent, fail_at,
}
use frankclaw.Core.ApiKeys.Selection.{IsAvailable}

abbrev pub UsedBefore : ℕ → Option ℕ → Type 0
UsedBefore t none = Unit
UsedBefore t (some used) = used < t

-- An entry between two calls: no failures without a cooldown, and one failure at most.
pub record IsSettled (t : ℕ) (s : KeyStats) : Type 0 where
  pub idle : s.cooldown_until ≡ none → s.consecutive_failures ≡ 0
  pub once : s.consecutive_failures ≤ 1
  pub used : UsedBefore t s.last_used

-- An entry whose expired cooldown is cleared.
pub record IsReady (now : ℕ) (s : KeyStats) : Type 0 where
  pub settled : IsSettled now s
  pub unfailed : IsAvailable now s → s.consecutive_failures ≡ 0

pub clear_expired-IsReady :
    (now : ℕ) (s : KeyStats) → IsSettled now s → IsReady now (clear_expired now s)
unfolding clear_expired is_available
clear_expired-IsReady now s h = elim (Option-cases s.cooldown_until) [
  | inl free ↦
      let zero_failures = h.idle free in
      rw (free, clear_expired) (record { settled = h; unfailed = λ a. zero_failures })
  | inr (until, cooling) ↦ elim (Bool-cases (leb until now)) [
    | inl over ↦
        rw (cooling, over, clear_expired)
          (record {
            settled = record { idle = λ e. refl; once = omega arith; used = h.used };
            unfailed = λ a. refl;
          })
    | inr going ↦
        rw (cooling, going, clear_expired)
          (record { settled = h; unfailed = λ a. absurd (ground arith) })
  ]
]

-- An entry used at `now` is the most recent one.
pub most_recent-none_or :
    (now index : ℕ) (ss : List KeyStats)
    → All (λ s. UsedBefore now s.last_used) ss
    → (i used : ℕ) → most_recent index ss ≡ some (i, used)
    → used < now
unfolding most_recent
most_recent-none_or now index [] h i used e = cc
most_recent-none_or now index (s ∷ ss) (h, hs) i used e =
    elim (Option-cases (most_recent (index + 1) ss)) [
      | inl absent ↦ elim (Option-cases s.last_used) [
        | inl never ↦ absurd (ground arith)
        | inr (u, at) ↦ ground arith
      ]
      | inr ((j, u), found) ↦
          let below = most_recent-none_or now (index + 1) ss hs j u found in
          elim (Option-cases s.last_used) [ inl never ↦ ground arith | inr (v, at) ↦ ground arith ]
    ]

pub most_recent-here :
    (now index : ℕ) (before after : List KeyStats) (s : KeyStats)
    → s.last_used ≡ some now
    → All (λ x. UsedBefore now x.last_used) before
    → All (λ x. UsedBefore now x.last_used) after
    → most_recent index (before ++ (s ∷ after)) ≡ some (index + length before, now)
unfolding most_recent
most_recent-here now index [] after s at b a = elim (Option-cases (most_recent (index + 1) after)) [
  | inl absent ↦ ground arith
  | inr ((j, u), found) ↦ ground (arith, most_recent-none_or now (index + 1) after a j u found)
]
most_recent-here now index (x ∷ xs) after s at (h, b) a =
    let rest = most_recent-here now (index + 1) xs after s at b a in
    elim (Option-cases x.last_used) [ inl never ↦ ground arith | inr (u, used) ↦ ground arith ]

pub All-split :
    (P : KeyStats → Type 0) (before after : List KeyStats) (s : KeyStats)
    → All P (before ++ (s ∷ after))
    → All P before × P s × All P after
All-split P [] after s h = (tt, h.0, h.1)
All-split P (x ∷ xs) after s h = let (b, c, a) = All-split P xs after s h.1 in ((h.0, b), c, a)

UsedBefore-later : (t u : ℕ) → t ≤ u → (o : Option ℕ) → UsedBefore t o → UsedBefore u o
UsedBefore-later t u le none h = tt
UsedBefore-later t u le (some v) h = omega arith

pub IsSettled-later : (t u : ℕ) → t ≤ u → (s : KeyStats) → IsSettled t s → IsSettled u s
IsSettled-later t u le s h = record {
  idle = h.idle;
  once = h.once;
  used = UsedBefore-later t u le s.last_used h.used;
}

-- After a selection at `now`, from the next instant on.
pub IsReady-IsSettled : (now : ℕ) (s : KeyStats) → IsReady now s → IsSettled (now + 1) s
IsReady-IsSettled now s h = record {
  idle = h.settled.idle;
  once = h.settled.once;
  used = UsedBefore-later now (now + 1) (omega arith) s.last_used h.settled.used;
}

abbrev pub touched : ℕ → KeyStats → KeyStats
touched now s = record s { last_used = some now }

-- The entry that is chosen, once its use is recorded and once its outcome is marked too.
module _ (now : ℕ) (s : KeyStats) (h : IsReady now s) (free : IsAvailable now s) where
  pub touched-IsSettled : IsSettled (now + 1) (touched now s)
  touched-IsSettled = record { idle = h.settled.idle; once = h.settled.once; used = omega arith }

  pub mark_success-touched-IsSettled : IsSettled (now + 1) (record (touched now s) {
    consecutive_failures = 0;
    cooldown_until = none;
    last_failure_reason = none;
  })
  mark_success-touched-IsSettled = record {
    idle = λ e. refl;
    once = omega arith;
    used = omega arith;
  }

  pub fail_at-touched-IsSettled :
      (at : ℕ) (reason : FailureReason) → IsSettled (now + 1) (fail_at at reason (touched now s))
  unfolding fail_at
  fail_at-touched-IsSettled at reason = record {
    idle = λ e. absurd (ground arith);
    once = omega (arith, h.unfailed free);
    used = omega arith;
  }

-- A settled entry among ready ones.
pub around :
    (now : ℕ) (before after : List KeyStats) {s : KeyStats}
    → All (IsReady now) before
    → All (IsReady now) after
    → IsSettled (now + 1) s
    → All (IsSettled (now + 1)) (before ++ (s ∷ after))
around now before after b a h =
    All-append (IsSettled (now + 1)) before (_ ∷ after) (All-imp (IsReady-IsSettled now) before b)
      (h, All-imp (IsReady-IsSettled now) after a)
