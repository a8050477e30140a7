-- ===== src/Core/ApiKeys/Tests.antt =====
-- A rotator with two keys.
use frankclaw.Prelude.{ℕ, ◌+◌, ◌≤◌, ◌≡◌, refl, some, List, [], ◌∷◌, All, from_secs, arith}
use frankclaw.Core.ApiKeys.{KeyRotator, rate_limit, new, select, is_available}
use frankclaw.Core.ApiKeys.Rounds.{Call, calls, calls-failures-le-1}

abbrev fails_at : ℕ → Call
fails_at t = record { selected_at = t; outcome = some rate_limit; marked_at = t + 1 }

abbrev failing : List Call
failing = fails_at 5 ∷ fails_at (from_secs 70) ∷ fails_at (from_secs 140) ∷ []

abbrev keys : KeyRotator ℕ
keys = new (1 ∷ 2 ∷ [])

round_robin : ((select 5 keys).0 ≡ some 1) × ((select 6 (select 5 keys).1).0 ≡ some 2)
unfolding select new is_available
round_robin = (refl, refl)

calls-failures-le-1_example :
    All (λ s. s.consecutive_failures ≤ 1) (calls (new {Key = ℕ} (1 ∷ 2 ∷ [])) failing).stats
calls-failures-le-1_example =
    calls-failures-le-1 {Key = ℕ} (1 ∷ 2 ∷ []) failing
      (omega arith, (omega arith, (omega arith, tt)))
