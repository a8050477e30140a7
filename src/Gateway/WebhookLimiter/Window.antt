-- ===== src/Gateway/WebhookLimiter/Window.antt =====
-- How many webhook calls crates/frankclaw-gateway/src/webhook_limiter.rs admits in a minute.
use frankclaw.Prelude.{
  ℕ, ◌+◌, ◌-◌, ◌≤◌, ◌<◌, ◌^◌, ◌≡◌, min, String, true, false, none, some, List, [], ◌∷◌, arith,
  Bool-cases, inl, inr, lookup, lookup-insert, string_eq, ==_refl, length, from_secs, All, leb,
  if◌then◌else◌,
}
use frankclaw.Gateway.WebhookLimiter.{RateCounter, WebhookLimiter, check_rate}

-- The calls for a mapping at some instants: how many are allowed.
unfoldable pub admitted : String → ℕ → List ℕ → WebhookLimiter → ℕ
admitted id limit [] l = 0
admitted id limit (t ∷ ts) l =
    let r = check_rate id limit t l in (if r.0 then 1 else 0) + admitted id limit ts r.1

-- Less than a minute after the start of a window.
abbrev pub IsInWindow : ℕ → ℕ → Type 0
IsInWindow start t = t < start + from_secs 60

abbrev counter_at : ℕ → ℕ → ℕ → RateCounter
counter_at count limit start = record { count = count; limit = limit; window_start = start }

check_rate-in_window :
    (id : String) (limit count start t : ℕ) (l : WebhookLimiter)
    → 0 < limit
    → limit < 2 ^ 32
    → lookup id l.rate_counters ≡ some (counter_at count limit start)
    → IsInWindow start t
    → ((check_rate id limit t l).0 ≡ (if leb limit count then false else true))
      × (lookup id (check_rate id limit t l).1.rate_counters
          ≡ some (counter_at (if leb limit count then count else count + 1) limit start))
unfolding check_rate
check_rate-in_window id limit count start t l positive fits found inside =
    elim (Bool-cases (leb limit count)) [
      | inl full ↦
          ground
            (arith, lookup-insert id id (counter_at count limit start) l.rate_counters, ==_refl id)
      | inr room ↦ ground (
        arith,
        lookup-insert id id (counter_at (count + 1) limit start) l.rate_counters,
        ==_refl id,
      )
    ]

admitted_in_window :
    (id : String) (limit count start : ℕ) (ts : List ℕ) (l : WebhookLimiter)
    → 0 < limit
    → limit < 2 ^ 32
    → count ≤ limit
    → lookup id l.rate_counters ≡ some (counter_at count limit start)
    → All (IsInWindow start) ts
    → admitted id limit ts l ≡ min (length ts) (limit - count)
unfolding admitted
admitted_in_window id limit count start [] l positive fits few found inside = omega arith
admitted_in_window id limit count start (t ∷ ts) l positive fits few found inside =
    let (answer, after) =
      check_rate-in_window id limit count start t l positive fits found inside.0 in
    elim (Bool-cases (leb limit count)) [
      | inl full ↦
          let rest =
            admitted_in_window id limit count start ts (check_rate id limit t l).1 positive fits few
              (rw full at after) inside.1 in
          ground (arith, answer, rest)
      | inr room ↦
          let rest =
            admitted_in_window id limit (count + 1) start ts (check_rate id limit t l).1 positive
              fits (ground arith) (rw room at after) inside.1 in
          ground (arith, answer, rest)
    ]

check_rate-first :
    (id : String) (limit t : ℕ) (l : WebhookLimiter)
    → 0 < limit
    → lookup id l.rate_counters ≡ none
    → ((check_rate id limit t l).0 ≡ true)
      × (lookup id (check_rate id limit t l).1.rate_counters ≡ some (counter_at 1 limit t))
unfolding check_rate
check_rate-first id limit t l positive absent =
    ground (arith, lookup-insert id id (counter_at 1 limit t) l.rate_counters, ==_refl id)

-- Of a first call for a mapping and further ones less than a minute after it, with a limit that is not
-- 0 and fits u32, as many are allowed as the limit says, or all if they are fewer.
admitted_in_minute :
    (id : String) (limit start : ℕ) (ts : List ℕ) (l : WebhookLimiter)
    → 0 < limit
    → limit < 2 ^ 32
    → lookup id l.rate_counters ≡ none
    → All (IsInWindow start) ts
    → admitted id limit (start ∷ ts) l ≡ min (length (start ∷ ts)) limit
unfolding admitted
admitted_in_minute id limit start ts l positive fits absent inside =
    let (answer, after) = check_rate-first id limit start l positive absent in
    let rest =
      admitted_in_window id limit 1 start ts (check_rate id limit start l).1 positive fits positive
        after inside in
    ground (arith, answer, rest)
