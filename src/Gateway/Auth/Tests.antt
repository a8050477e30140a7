-- ===== src/Gateway/Auth/Tests.antt =====
-- Logins at concrete inputs.
use frankclaw.Prelude.{
  ◌≡◌, ◌↔◌, refl, Bool, false, Option, none, some, String, List, [], ◌∷◌, ℕ, arith, lookup,
}
use frankclaw.Core.Error.{err, ok, rate_limited}
use frankclaw.Gateway.Net.{v4}
use frankclaw.Gateway.RateLimit.{AuthRateLimiter, new, is_locked}
use frankclaw.Gateway.Auth.{token, bearer_token, admin, Clock, authenticate}
use frankclaw.Gateway.Auth.Access.{Grants, Guess, after_guesses, authenticate_iff, guesses_bounded}

-- A stand-in for the Argon2id check, which accepts nothing.
abbrev no_password : List ℕ → String → Option Bool
no_password p hash = some false

abbrev secret : List ℕ
secret = 115 ∷ 51 ∷ []

abbrev limiter : AuthRateLimiter
limiter = new (record { max_attempts = 2; window_secs = 60; lockout_secs = 300 })

abbrev at : ℕ → Clock
at t = record { asked = t; later = t; recorded = t }

abbrev first : Guess
first = record { secret = 1 ∷ []; clock = at 10 }

abbrev second : Guess
second = record { secret = 2 ∷ []; clock = at 20 }

authenticate_iff_example :
    ((authenticate no_password
        (token (some secret))
        (bearer_token secret)
        (some (v4 7))
        (at 5)
        limiter).0
      ≡ ok admin)
    ↔ ((is_locked limiter (v4 7) 5 5 ≡ none)
        × Grants no_password (token (some secret)) (bearer_token secret) admin)
authenticate_iff_example =
    authenticate_iff no_password (token (some secret)) (bearer_token secret) (v4 7) (at 5) limiter
      admin (omega arith)

guesses_bounded_example :
    let after = after_guesses no_password secret (v4 7) limiter (first ∷ second ∷ []) in
    authenticate no_password (token (some secret)) (bearer_token secret) (some (v4 7)) (at 30) after
    ≡ (err (rate_limited 299), after)
unfolding new lookup
guesses_bounded_example =
    guesses_bounded no_password secret (v4 7) limiter first (second ∷ []) (bearer_token secret)
      (at 30) (omega arith) (omega arith, λ e. cc) ((omega arith, λ e. cc), tt) refl (omega arith)
      refl (omega arith) (omega arith)
