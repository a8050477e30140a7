-- ===== src/Media/Fetch/Safety.antt =====
-- The requests that crates/frankclaw-media/src/fetch.rs sends.
use frankclaw.Prelude.{
  ℕ, zero, suc, ◌+◌, ◌≤◌, ◌≡◌, ◌≢◌, refl, String, string_eq, true, some, Bool-cases, Option-cases,
  inl, inr, ◌⊎◌, List, [], ◌∷◌, ◌||◌, ◌==◌, length, All, arith,
}
use frankclaw.Core.Error.{Result, ok, Result-cases}
use frankclaw.Gateway.Net.{IpAddr}
use frankclaw.Media.Address.{is_safe_ip}
use frankclaw.Media.Fetch.{
  Url, Answer, answered, failed, Response, FetchedContent, fetch_blocked, check_addrs,
  check_resolved, port_of, validate_url_ssrf, is_redirection, redirected, accept, fetch_from, fetch,
}

check_addrs-ok :
    (show_ip : IpAddr → String) (addrs : List IpAddr) (u : Unit)
    → check_addrs show_ip addrs ≡ ok u
    → All (λ a. is_safe_ip a ≡ true) addrs
unfolding check_addrs fetch_blocked
check_addrs-ok show_ip [] u h = tt
check_addrs-ok show_ip (a ∷ addrs) u h = elim (Bool-cases (is_safe_ip a)) [
  | inl safe ↦ (safe, check_addrs-ok show_ip addrs u (rw safe at h))
  | inr unsafe ↦ absurd (ground (arith, (rw unsafe at h)))
]

Answer-cases :
    {A : Type 0} (r : Answer A) → ((a : A) × (r ≡ answered a)) ⊎ ((e : String) × (r ≡ failed e))
Answer-cases (answered a) = inl (a, refl)
Answer-cases (failed e) = inr (e, refl)

module _ (show_ip : IpAddr → String) (resolve : ℕ → String → ℕ → Answer (List IpAddr)) where
  -- A URL of the web whose host resolves, after `k` redirects, to addresses that are all safe.
  abbrev pub IsPublic : ℕ → Url → Type 0
  IsPublic k url =
      ((url.scheme ≡ "http") ⊎ (url.scheme ≡ "https"))
      × ((host : String) × ((url.host ≡ some host)
            × ((addrs : List IpAddr) × ((resolve k host (port_of url.port) ≡ answered addrs)
                  × ((addrs ≢ []) × All (λ a. is_safe_ip a ≡ true) addrs)))))

  abbrev pub ArePublic : ℕ → List Url → Type 0
  ArePublic k [] = Unit
  ArePublic k (url ∷ urls) = IsPublic k url × ArePublic (k + 1) urls

  check_resolved-ok :
      (answer : Answer (List IpAddr)) (u : Unit)
      → check_resolved show_ip answer ≡ ok u
      → (addrs : List IpAddr) × ((answer ≡ answered addrs)
          × ((addrs ≢ []) × All (λ a. is_safe_ip a ≡ true) addrs))
  unfolding check_resolved fetch_blocked
  check_resolved-ok (failed e) u h = absurd (ground (arith, h))
  check_resolved-ok (answered []) u h = absurd (ground (arith, h))
  check_resolved-ok (answered (a ∷ addrs)) u h = (
    a ∷ addrs,
    (refl, ((λ e. absurd (ground (arith, e))), check_addrs-ok show_ip (a ∷ addrs) u h)),
  )

  validate_url_ssrf-IsPublic :
      (k : ℕ) (url : Url) (u : Unit)
      → validate_url_ssrf show_ip (resolve k) url ≡ ok u
      → IsPublic k url
  unfolding validate_url_ssrf fetch_blocked
  validate_url_ssrf-IsPublic k url u h =
      elim (Bool-cases ((url.scheme == "http") || (url.scheme == "https"))) [
        | inr other ↦ absurd (ground (arith, (rw other at h)))
        | inl web ↦ elim (Option-cases url.host) [
          | inl absent ↦ absurd (ground (arith, (rw (web, absent) at h)))
          | inr (host, found) ↦ (
            ground (
              arith,
              web,
              string_eq.same_iff url.scheme "http",
              string_eq.same_iff url.scheme "https",
            ),
            (
              host,
              (
                found,
                check_resolved-ok (resolve k host (port_of url.port)) u (rw (web, found) at h),
              ),
            ),
          )
        ]
      ]

  module _ (send : ℕ → Url → Answer Response) (join : Url → String → Answer Url)
      (max_bytes : ℕ) where
    accept-small :
        (response : Response) (content : FetchedContent)
        → accept max_bytes response ≡ ok content
        → length content.bytes ≤ max_bytes
    unfolding accept fetch_blocked
    accept-small response content h = ground arith

    -- What a fetch from `k` redirects on, with `left` rounds to go, keeps to.
    abbrev pub IsBounded : ℕ → ℕ → Result FetchedContent × List Url → Type 0
    IsBounded left k done =
        ArePublic k done.1
        × ((length done.1 ≤ left)
            × ((content : FetchedContent) → done.0 ≡ ok content → length content.bytes ≤ max_bytes))

    fetch_from-IsBounded :
        (left k : ℕ) (url : Url)
        → IsBounded left k (fetch_from show_ip resolve send join max_bytes left k url)
    unfolding fetch_from fetch_blocked
    fetch_from-IsBounded zero k url = (tt, (omega arith, λ c e. absurd (ground (arith, e))))
    fetch_from-IsBounded (suc left) k url =
        elim (Result-cases (validate_url_ssrf show_ip (resolve k) url)) [
          | inr (e, refused) ↦
              rw (refused, fetch_from) (tt, (omega arith, λ c e. absurd (ground (arith, e))))
          | inl (u, passed) ↦
              let here = validate_url_ssrf-IsPublic k url u passed in
              elim (Answer-cases (send k url)) [
                | inr (e, lost) ↦
                    rw (passed, lost, fetch_from)
                      ((here, tt), (omega arith, λ c e. absurd (ground (arith, e))))
                | inl (response, sent) ↦ elim (Bool-cases (is_redirection response.status)) [
                  | inr final ↦
                      rw (passed, sent, final, fetch_from)
                        ((here, tt), (omega arith, accept-small response))
                  | inl moved ↦ elim (Result-cases (redirected join k url response)) [
                    | inr (e, stuck) ↦
                        rw (passed, sent, moved, stuck, fetch_from)
                          ((here, tt), (omega arith, λ c e. absurd (ground (arith, e))))
                    | inl (next, leads) ↦
                        let later = fetch_from-IsBounded left (k + 1) next in
                        rw (passed, sent, moved, leads, fetch_from)
                          ((here, later.0), (omega (arith, later.1.0), later.1.1))
                  ]
                ]
              ]
        ]

    -- Whatever the resolver, the servers and their redirects answer, and however the answers change with
    -- time: a request is sent only to an http or https URL whose host resolved, when it was checked before
    -- that request, to one address or more that are all safe; at most six requests are sent; and a
    -- content that is returned has at most the allowed number of bytes.
    pub fetch-IsBounded :
        (url : Url) → IsBounded 6 0 (fetch show_ip resolve send join max_bytes url)
    unfolding fetch
    fetch-IsBounded url = fetch_from-IsBounded 6 0 url
