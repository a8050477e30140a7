-- ===== src/Media/Fetch.antt =====
-- `SafeFetcher` of crates/frankclaw-media/src/fetch.rs. The resolver, the HTTP client and the joining of URLs are
-- arguments; the resolver and the client get the number of the redirects so far, since their answers may
-- change with time. The requests that are sent are recorded.
pub mod Safety
mod Tests
use Prim.Native.String.{◌++◌}
use frankclaw.Prelude.{
  ℕ, zero, suc, ◌+◌, String, string_eq, Bool, true, false, Option, none, some, List, [], ◌∷◌, ◌||◌,
  ◌&&◌, not, ltb, leb, ◌==◌, length, if◌then◌else◌,
}
use frankclaw.Core.Error.{
  FrankClawError, media_fetch_blocked, media_too_large, Result, ok, err, ◌>>=◌,
}
use frankclaw.Gateway.Net.{IpAddr}
use frankclaw.Media.Address.{is_safe_ip}

-- `MAX_REDIRECTS`.
abbrev pub max_redirects : ℕ
max_redirects = 5

-- What the code reads of a `Url`; `port` is `port_or_known_default()`.
pub record Url : Type 0 where
  pub text : String
  pub scheme : String
  pub host : Option String
  pub port : Option ℕ

-- A result of a package, an error as its text.
pub data Answer (A : Type 0) : Type 0 where
  answered : A → Answer A
  failed : String → Answer A

-- What the code reads of a response; `status_text` is the `Display` of the status.
pub record Response : Type 0 where
  pub status : ℕ
  pub status_text : String
  pub location : Option String
  pub content_length : Option ℕ
  pub content_type : Option String
  pub body : Answer (List ℕ)

pub record FetchedContent : Type 0 where
  pub bytes : List ℕ
  pub content_type : String

fetch_blocked : {A : Type 0} → String → Result A
fetch_blocked reason = err (media_fetch_blocked reason)

-- The loop over the resolved addresses.
check_addrs : (IpAddr → String) → List IpAddr → Result {0} Unit
unfolding fetch_blocked
check_addrs show_ip [] = ok tt
check_addrs show_ip (addr ∷ addrs) =
    let rest = check_addrs show_ip addrs in
    if not (is_safe_ip addr)
    then fetch_blocked ("URL resolves to blocked IP range: " ++ show_ip addr)
    else rest

check_resolved : (IpAddr → String) → Answer (List IpAddr) → Result {0} Unit
unfolding fetch_blocked check_addrs
check_resolved show_ip (failed e) = fetch_blocked ("DNS resolution failed: " ++ e)
check_resolved show_ip (answered []) = fetch_blocked "DNS resolved to no addresses"
check_resolved show_ip (answered (addr ∷ addrs)) = check_addrs show_ip (addr ∷ addrs)

unfoldable pub port_of : Option ℕ → ℕ
port_of none = 443
port_of (some port) = port

-- `validate_url_ssrf`, with the resolver at that moment.
unfoldable pub validate_url_ssrf :
    (IpAddr → String) → (String → ℕ → Answer (List IpAddr)) → Url → Result {0} Unit
unfolding fetch_blocked check_resolved port_of
validate_url_ssrf show_ip resolve url =
    if (url.scheme == "http") || (url.scheme == "https")
    then elim url.host [
      | none ↦ fetch_blocked "no host in URL"
      | some host ↦ check_resolved show_ip (resolve host (port_of url.port))
    ]
    else fetch_blocked ("unsupported scheme: " ++ url.scheme)

is_redirection : ℕ → Bool
is_redirection status = leb 300 status && ltb status 400

is_success : ℕ → Bool
is_success status = leb 200 status && ltb status 300

-- The URL that a redirection leads to.
redirected : (Url → String → Answer Url) → ℕ → Url → Response → Result Url
unfolding fetch_blocked
redirected join redirect_count url response =
    if leb max_redirects redirect_count
    then fetch_blocked "too many redirects (5)"
    else elim response.location [
      | none ↦ fetch_blocked "redirect without Location header"
      | some location ↦ elim (join url location) [
        | failed e ↦ fetch_blocked ("invalid redirect URL: " ++ e)
        | answered next ↦ ok next
      ]
    ]

type_or_default : Option String → String
type_or_default none = "application/octet-stream"
type_or_default (some t) = t

-- `content_length > max_bytes`, where a length is given.
is_announced_large : ℕ → Option ℕ → Bool
is_announced_large max_bytes none = false
is_announced_large max_bytes (some announced) = ltb max_bytes announced

-- What a response that is no redirection gives.
accept : ℕ → Response → Result FetchedContent
unfolding fetch_blocked is_success type_or_default is_announced_large
accept max_bytes response =
    if not (is_success response.status)
    then fetch_blocked ("HTTP " ++ response.status_text)
    else if is_announced_large max_bytes response.content_length
    then err (media_too_large max_bytes)
    else elim response.body [
      | failed e ↦ fetch_blocked ("body read failed: " ++ e)
      | answered bytes ↦
          if ltb max_bytes (length bytes)
          then err (media_too_large max_bytes)
          else ok (record { bytes = bytes; content_type = type_or_default response.content_type })
    ]

module _ (show_ip : IpAddr → String) (resolve : ℕ → String → ℕ → Answer (List IpAddr))
    (send : ℕ → Url → Answer Response) (join : Url → String → Answer Url) (max_bytes : ℕ) where
  -- The loop with `left` rounds to go, and the URLs that requests were sent to.
  fetch_from : ℕ → ℕ → Url → Result FetchedContent × List Url
  unfolding fetch_blocked redirected is_redirection accept
  fetch_from zero redirect_count url = (fetch_blocked "too many redirects (5)", [])
  fetch_from (suc left) redirect_count url =
      elim (validate_url_ssrf show_ip (resolve redirect_count) url) [
        | err e ↦ (err e, [])
        | ok u ↦ elim (send redirect_count url) [
          | failed e ↦ (fetch_blocked ("fetch failed: " ++ e), url ∷ [])
          | answered response ↦
              if is_redirection response.status
              then elim (redirected join redirect_count url response) [
                | err e ↦ (err e, url ∷ [])
                | ok next ↦
                    let rest = fetch_from left (redirect_count + 1) next in (rest.0, url ∷ rest.1)
              ]
              else (accept max_bytes response, url ∷ [])
        ]
      ]

  -- `for redirect_count in 0..=MAX_REDIRECTS`.
  unfoldable pub fetch : Url → Result FetchedContent × List Url
  unfolding fetch_from
  fetch url = fetch_from (suc max_redirects) 0 url
