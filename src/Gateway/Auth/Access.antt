-- ===== src/Gateway/Auth/Access.antt =====
-- Who gets in through `authenticate` of crates/frankclaw-gateway/src/auth.rs, and how often an
-- address may guess.
use frankclaw.Prelude.{
  ℕ, ◌+◌, ◌-◌, ◌/◌, ◌^◌, ◌≤◌, ◌<◌, String, ◌≡◌, ◌≢◌, ◌↔◌, refl, Bool, true, Option, some, none,
  List, [], ◌∷◌, map, arith, All, All-map, length-map, length, lookup, from_secs, ==_iff, string_eq,
  Option-cases, inl, inr,
}
use frankclaw.Core.Error.{ok, err, rate_limited}
use frankclaw.Crypto.Token.Equality.{IsBytes, verify_token_eq_iff}
use frankclaw.Gateway.Net.{IpAddr, ip_eq}
use frankclaw.Gateway.RateLimit.{AuthRateLimiter, is_locked, record_failure}
use frankclaw.Gateway.RateLimit.Lockout.{
  record_failures, last, entry_after, record_failure-next, record_failure-first,
  is_locked-entry_after, is_locked-record_failures,
}
use frankclaw.Gateway.Auth.{
  AuthMode, no_auth, token, trusted_proxy, tailscale, AuthRole, admin, editor, AuthCredential,
  bearer_token, proxy_identity, tailscale_identity, Clock, check_credential, authenticate,
}

-- Which credential is good for which mode, and the role that it gives.
abbrev pub Grants : (List ℕ → String → Option Bool) → AuthMode → AuthCredential → AuthRole → Type 0
Grants verify no_auth c role = role ≡ admin
Grants verify (token (some t)) (bearer_token p) role = (p ≡ t) × (role ≡ admin)
Grants verify (AuthMode.password hash) (AuthCredential.password p) role =
    (verify p hash ≡ some true) × (role ≡ admin)
Grants verify (trusted_proxy header) (proxy_identity identity) role =
    (identity ≢ "") × (role ≡ editor)
Grants verify tailscale (tailscale_identity identity) role = (identity ≢ "") × (role ≡ admin)
Grants verify _ _ role = ⊥

-- The secrets that are compared are byte strings.
abbrev pub HasBytes : AuthMode → AuthCredential → Type 0
HasBytes (token (some t)) (bearer_token p) = IsBytes t × IsBytes p
HasBytes _ _ = Unit

check_credential_iff :
    (verify : List ℕ → String → Option Bool) (mode : AuthMode) (c : AuthCredential)
    (role : AuthRole)
    → HasBytes mode c
    → (check_credential verify mode c ≡ ok role) ↔ Grants verify mode c role
unfolding check_credential
check_credential_iff verify no_auth c role b = ground arith
check_credential_iff verify (token (some t)) (bearer_token p) role b =
    ground (arith, verify_token_eq_iff p t b.1 b.0)
check_credential_iff verify (AuthMode.password hash) (AuthCredential.password p) role b =
    ground arith
check_credential_iff verify (trusted_proxy header) (proxy_identity identity) role b =
    ground (arith, ==_iff identity "")
check_credential_iff verify tailscale (tailscale_identity identity) role b =
    ground (arith, ==_iff identity "")
check_credential_iff verify _ c role b = ground arith

-- A client at an address gets a role exactly when the address is not locked and its credential is
-- good for the mode, where the compared secrets are byte strings.
pub authenticate_iff :
    (verify : List ℕ → String → Option Bool) (mode : AuthMode) (c : AuthCredential) (ip : IpAddr)
    (clock : Clock) (l : AuthRateLimiter) (role : AuthRole)
    → HasBytes mode c
    → ((authenticate verify mode c (some ip) clock l).0 ≡ ok role)
      ↔ ((is_locked l ip clock.asked clock.later ≡ none) × Grants verify mode c role)
unfolding authenticate
authenticate_iff verify mode c ip clock l role b =
    let (sound, complete) = check_credential_iff verify mode c role b in
    elim (Option-cases (is_locked l ip clock.asked clock.later)) [
      | inl free ↦ (λ h. (free, sound (ground arith)), λ g. ground (arith, complete g.1))
      | inr (d, locked) ↦ (λ h. ground arith, λ g. ground (arith, g.0))
    ]

-- An attempt from a locked address is answered `rate_limited` and changes nothing.
authenticate_locked :
    (verify : List ℕ → String → Option Bool) (mode : AuthMode) (c : AuthCredential) (ip : IpAddr)
    (clock : Clock) (l : AuthRateLimiter) {d : ℕ}
    → is_locked l ip clock.asked clock.later ≡ some d
    → authenticate verify mode c (some ip) clock l ≡ (err (rate_limited (d / 1000000000)), l)
unfolding authenticate
authenticate_locked verify mode c ip clock l h = ground arith

is_locked-absent :
    (l : AuthRateLimiter) (ip : IpAddr) (asked later : ℕ)
    → lookup ip l.attempts ≡ none
    → is_locked l ip asked later ≡ none
unfolding is_locked
is_locked-absent l ip asked later h = ground arith

-- A guess at a token, and the instants of its attempt.
pub record Guess : Type 0 where
  pub secret : List ℕ
  pub clock : Clock

module _ (verify : List ℕ → String → Option Bool) (expected : List ℕ) (ip : IpAddr) where
  -- The rate limiter after some attempts by bearer token from one address.
  abbrev pub after_guesses : AuthRateLimiter → List Guess → AuthRateLimiter
  after_guesses l [] = l
  after_guesses l (g ∷ gs) =
      after_guesses
        (authenticate verify (token (some expected)) (bearer_token g.secret) (some ip) g.clock l).1
        gs

  -- A byte string other than the token.
  abbrev pub IsWrong : Guess → Type 0
  IsWrong g = IsBytes g.secret × (g.secret ≢ expected)

  guess_unlocked :
      (l : AuthRateLimiter) (g : Guess)
      → IsBytes expected
      → IsWrong g
      → is_locked l ip g.clock.asked g.clock.later ≡ none
      → (authenticate verify (token (some expected)) (bearer_token g.secret) (some ip) g.clock l).1
        ≡ record_failure l ip g.clock.recorded
  unfolding authenticate
  guess_unlocked l g be (bg, wrong) free =
      ground (arith, verify_token_eq_iff g.secret expected bg be)

  after_guesses_from :
      (l : AuthRateLimiter) (first n t : ℕ) (gs : List Guess)
      → IsBytes expected
      → All IsWrong gs
      → lookup ip l.attempts ≡ some (entry_after l.config first n t)
      → All (λ g. g.clock.recorded - first ≤ from_secs l.config.window_secs) gs
      → n + length gs ≤ l.config.max_attempts
      → l.config.max_attempts < 2 ^ 32
      → after_guesses l gs ≡ record_failures l ip (map (λ g. g.clock.recorded) gs)
  unfolding record_failure
  after_guesses_from l first n t [] be ws p is few fits = refl
  after_guesses_from l first n t (g ∷ gs) be (w, ws) p (i, is) few fits =
      let open_now = is_locked-entry_after l ip first n t g.clock.asked g.clock.later p in
      let free : is_locked l ip g.clock.asked g.clock.later ≡ none = ground (arith, open_now) in
      rw (guess_unlocked l g be w free) (
        after_guesses_from (record_failure l ip g.clock.recorded) first (n + 1) g.clock.recorded gs
          be ws (record_failure-next l ip first n t g.clock.recorded p i (omega arith)) is
          (omega arith) fits)

  after_guesses-eq :
      (l : AuthRateLimiter) (g : Guess) (gs : List Guess)
      → IsBytes expected
      → IsWrong g
      → All IsWrong gs
      → lookup ip l.attempts ≡ none
      → All (λ h. h.clock.recorded - g.clock.recorded ≤ from_secs l.config.window_secs) gs
      → 1 + length gs ≡ l.config.max_attempts
      → l.config.max_attempts < 2 ^ 32
      → after_guesses l (g ∷ gs)
        ≡ record_failures l ip (g.clock.recorded ∷ map (λ h. h.clock.recorded) gs)
  unfolding record_failure
  after_guesses-eq l g gs be w ws absent is full fits =
      let t = g.clock.recorded in
      rw (guess_unlocked l g be w (is_locked-absent l ip _ _ absent)) (
        after_guesses_from (record_failure l ip t) t 1 t gs be ws
          (record_failure-first l ip t absent) is (omega arith) fits)

  -- Of an address with no entry, as many wrong guesses as the maximum (at least one, fewer than
  -- 2^32), each recorded within the window after the first, lock it: until the lockout after the last
  -- of them ends, every attempt by any credential, the right token too, is answered `rate_limited`
  -- and changes nothing.
  pub guesses_bounded :
      (l : AuthRateLimiter) (g : Guess) (gs : List Guess) (c : AuthCredential) (clock : Clock)
      → IsBytes expected
      → IsWrong g
      → All IsWrong gs
      → lookup ip l.attempts ≡ none
      → All (λ h. h.clock.recorded - g.clock.recorded ≤ from_secs l.config.window_secs) gs
      → 1 + length gs ≡ l.config.max_attempts
      → l.config.max_attempts < 2 ^ 32
      → clock.asked
        < last g.clock.recorded (map (λ h. h.clock.recorded) gs) + from_secs l.config.lockout_secs
      → let after = after_guesses l (g ∷ gs) in
        authenticate verify (token (some expected)) c (some ip) clock after ≡ (
          err (
              rate_limited (
                (last g.clock.recorded (map (λ h. h.clock.recorded) gs)
                  + from_secs l.config.lockout_secs
                  - clock.later)
                / 1000000000)),
          after,
        )
  guesses_bounded l g gs c clock be w ws absent is full fits early =
      let same = after_guesses-eq l g gs be w ws absent is full fits in
      let times = map (λ h. h.clock.recorded) gs in
      let count = length-map gs (λ h. h.clock.recorded) in
      let answer =
        is_locked-record_failures l ip g.clock.recorded times clock.asked clock.later absent
          (All-map _ (λ h. h.clock.recorded) gs is) (omega arith) in
      authenticate_locked verify (token (some expected)) c ip clock _
        (rw same (ground (arith, answer)))
