-- ===== src/Core/ApiKeys/Rounds.antt =====
-- A client of crates/frankclaw-core/src/api_keys.rs that selects a key, calls, and marks the outcome.
use frankclaw.Prelude.{
  ℕ, ◌+◌, ◌≤◌, ◌≡◌, refl, ap, ◌∙◌, Option, none, some, Option-cases, inl, inr, List, [], ◌∷◌, ◌++◌,
  map, length, All, All-imp, All-map, arith,
}
use frankclaw.Core.ApiKeys.{
  KeyStats, KeyRotator, FailureReason, new, clear_expired, most_recent, with_most_recent, select,
  mark_success, mark_failure,
}
use frankclaw.Core.ApiKeys.Selection.{
  Selects, nothing, key_of, select-Selects, update_at-append, IsAvailable,
}
use frankclaw.Core.ApiKeys.Entries.{
  All-split, IsReady-IsSettled, IsSettled-later, UsedBefore, IsSettled, IsReady,
  clear_expired-IsReady, most_recent-here, touched, touched-IsSettled,
  mark_success-touched-IsSettled, fail_at-touched-IsSettled, around,
}

-- A selection, the outcome of the call, and when a failure is marked.
pub record Call : Type 0 where
  pub selected_at : ℕ
  pub outcome : Option FailureReason
  pub marked_at : ℕ

module _ {Key : Type 0} where
  mark : Call → KeyRotator Key → KeyRotator Key
  mark c r = elim c.outcome [
    | none ↦ mark_success r
    | some reason ↦ mark_failure c.marked_at reason r
  ]

  after_select : Call → KeyRotator Key → Option Key → KeyRotator Key
  after_select c r none = r
  after_select c r (some key) = mark c r

  unfoldable pub call : KeyRotator Key → Call → KeyRotator Key
  unfolding after_select mark
  call r c = after_select c (select c.selected_at r).1 (select c.selected_at r).0

  unfoldable pub calls : KeyRotator Key → List Call → KeyRotator Key
  calls r [] = r
  calls r (c ∷ cs) = calls (call r c) cs

-- Each selection comes after the one before it, the first at `t` or later.
abbrev pub IsOrdered : ℕ → List Call → Type 0
IsOrdered t [] = Unit
IsOrdered t (c ∷ cs) = (t ≤ c.selected_at) × IsOrdered (c.selected_at + 1) cs

module _ {Key : Type 0} where
  with_most_recent-here :
      (f : KeyStats → KeyStats) (now : ℕ) (before after : List KeyStats) (s : KeyStats)
      (r : KeyRotator Key)
      → r.stats ≡ before ++ (s ∷ after)
      → s.last_used ≡ some now
      → All (λ x. UsedBefore now x.last_used) before
      → All (λ x. UsedBefore now x.last_used) after
      → (with_most_recent f r).stats ≡ before ++ (f s ∷ after)
  unfolding with_most_recent
  with_most_recent-here f now before after s r e at b a =
      let found : most_recent 0 r.stats ≡ some (length before, now) =
        rw e
          (most_recent-here now 0 before after s at b a ∙ ap (λ i. some (i, now)) (omega arith)) in
      rw (found, with_most_recent) (rw e (update_at-append f before after s))

  -- The entries around the chosen one, and that one after `f`.
  marked-IsSettled :
      (f : KeyStats → KeyStats) (now : ℕ) (before after : List KeyStats) (s : KeyStats)
      (r : KeyRotator Key)
      → r.stats ≡ before ++ (touched now s ∷ after)
      → All (IsReady now) before
      → All (IsReady now) after
      → IsSettled (now + 1) (f (touched now s))
      → All (IsSettled (now + 1)) (with_most_recent f r).stats
  marked-IsSettled f now before after s r e b a h =
      rw
        (with_most_recent-here f now before after (touched now s) r e refl
          (All-imp (λ x k. k.settled.used) before b) (All-imp (λ x k. k.settled.used) after a))
        (around now before after b a h)

  mark-IsSettled :
      (c : Call) (before after : List KeyStats) (s : KeyStats) (r : KeyRotator Key)
      → r.stats ≡ before ++ (touched c.selected_at s ∷ after)
      → All (IsReady c.selected_at) before
      → All (IsReady c.selected_at) after
      → IsReady c.selected_at s
      → IsAvailable c.selected_at s
      → All (IsSettled (c.selected_at + 1)) (mark c r).stats
  unfolding mark mark_success mark_failure
  mark-IsSettled c before after s r e b a h free = elim (Option-cases c.outcome) [
    | inl success ↦
        rw (success, mark)
          (marked-IsSettled _ c.selected_at before after s r e b a
            (mark_success-touched-IsSettled c.selected_at s h free))
    | inr (reason, failure) ↦
        rw (failure, mark)
          (marked-IsSettled _ c.selected_at before after s r e b a
            (fail_at-touched-IsSettled c.selected_at s h free c.marked_at reason))
  ]

  after_select-IsSettled :
      (c : Call) (r r' : KeyRotator Key) (k : Option Key)
      → Selects c.selected_at r r' k
      → All (IsReady c.selected_at) (map (clear_expired c.selected_at) r.stats)
      → All (IsSettled (c.selected_at + 1)) (after_select c r' k).stats
  unfolding after_select
  after_select-IsSettled c r r' none (nothing cool e) h =
      rw e (All-imp (IsReady-IsSettled c.selected_at) _ h)
  after_select-IsSettled c r r' k (key_of i used ch e) h =
      let parts : All (IsReady c.selected_at) (ch.before ++ (ch.chosen ∷ ch.after)) =
        rw ch.split at h in
      let (b, s, a) = All-split (IsReady c.selected_at) ch.before ch.after ch.chosen parts in
      let stats : r'.stats ≡ ch.before ++ (touched c.selected_at ch.chosen ∷ ch.after) = rw e in
      elim (Option-cases k) [
        | inl absent ↦
            rw (absent, after_select)
              (rw stats (
                around c.selected_at ch.before ch.after b a
                  (touched-IsSettled c.selected_at ch.chosen s ch.available)))
        | inr (key, found) ↦
            rw (found, after_select)
              (mark-IsSettled c ch.before ch.after ch.chosen r' stats b a s ch.available)
      ]

  call-IsSettled :
      (r : KeyRotator Key) (c : Call)
      → All (IsSettled c.selected_at) r.stats
      → All (IsSettled (c.selected_at + 1)) (call r c).stats
  unfolding call
  call-IsSettled r c h =
      after_select-IsSettled c r (select c.selected_at r).1 (select c.selected_at r).0
        (select-Selects c.selected_at r)
        (All-map (IsReady c.selected_at) (clear_expired c.selected_at) r.stats
          (All-imp (clear_expired-IsReady c.selected_at) r.stats h))

  calls-IsSettled :
      (t : ℕ) (r : KeyRotator Key) (cs : List Call)
      → IsOrdered t cs
      → All (IsSettled t) r.stats
      → All (λ s. s.consecutive_failures ≤ 1) (calls r cs).stats
  unfolding calls
  calls-IsSettled t r [] o h = All-imp (λ s k. k.once) r.stats h
  calls-IsSettled t r (c ∷ cs) (o, os) h =
      calls-IsSettled (c.selected_at + 1) (call r c) cs os
        (call-IsSettled r c (All-imp (IsSettled-later t c.selected_at o) r.stats h))

  new-IsSettled : (keys : List Key) → All (IsSettled 0) (new keys).stats
  unfolding new
  new-IsSettled [] = tt
  new-IsSettled (k ∷ ks) =
      (record { idle = λ e. refl; once = omega arith; used = tt }, new-IsSettled ks)

  -- A client that selects a key before each call, at increasing instants, and marks the outcome after
  -- it, never has a key with more than one failure in a row: a failed key is not selected before its
  -- cooldown has passed, and then its count starts again, so that the backoff never grows.
  pub calls-failures-le-1 :
      (keys : List Key) (cs : List Call)
      → IsOrdered 0 cs
      → All (λ s. s.consecutive_failures ≤ 1) (calls (new keys) cs).stats
  calls-failures-le-1 keys cs o = calls-IsSettled 0 (new keys) cs o (new-IsSettled keys)
