-- ===== src/Media/Fetch/Tests.antt =====
-- A server that redirects once, and one that redirects to itself.
use frankclaw.Prelude.{
  ℕ, zero, suc, ◌≡◌, refl, String, string_eq, none, some, List, [], ◌∷◌, length,
}
use frankclaw.Gateway.Net.{IpAddr, v4}
use frankclaw.Media.Address.{is_safe_ip}
use frankclaw.Media.Fetch.{
  Url, Answer, answered, Response, fetch, fetch_from, validate_url_ssrf, check_resolved,
  check_addrs, redirected, is_redirection, port_of,
}
use frankclaw.Media.Fetch.Safety.{IsBounded, fetch-IsBounded}

abbrev shown : IpAddr → String
shown addr = "an address"

abbrev resolver : ℕ → String → ℕ → Answer (List IpAddr)
resolver k host port = answered (v4 134744072 ∷ [])

abbrev page : Url
page = record {
  text = "https://example.org/a";
  scheme = "https";
  host = some "example.org";
  port = none;
}

abbrev moved : Response
moved = record {
  status = 302;
  status_text = "302 Found";
  location = some "/b";
  content_length = none;
  content_type = none;
  body = answered [];
}

abbrev served : Response
served = record {
  status = 200;
  status_text = "200 OK";
  location = none;
  content_length = some 3;
  content_type = some "text/plain";
  body = answered (97 ∷ 98 ∷ 99 ∷ []);
}

abbrev server : ℕ → Url → Answer Response
server zero url = answered moved
server (suc k) url = answered served

abbrev joined : Url → String → Answer Url
joined url location = answered url

endless : length (fetch shown resolver (λ k url. answered moved) joined 10 page).1 ≡ 6
unfolding fetch fetch_from validate_url_ssrf check_resolved check_addrs is_safe_ip redirected
    is_redirection port_of
endless = refl

fetch-IsBounded_example :
    IsBounded shown resolver server joined 10 6 0 (fetch shown resolver server joined 10 page)
fetch-IsBounded_example = fetch-IsBounded shown resolver server joined 10 page
