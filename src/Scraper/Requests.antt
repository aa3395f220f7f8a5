-- ===== src/Scraper/Requests.antt =====
-- `requestBytes` of apps/scraper/src/legalinfo/client.ts and the redirects of http/redirects.ts. The
-- platform's resolving of a link, the rules of robots.txt and the answers of the network, which may
-- depend on what was requested before, are parameters. The state is the list of the requests, the
-- latest first. The rate limiter, the headers and the cookies are left out.
pub mod Origin
use tore_legal_data_engine.Prelude.{
  ℕ, zero, suc, String, Option, none, some, List, [], ◌∷◌, Bool, true, false, not, ◌&&◌, ◌||◌,
  if◌then◌else◌, eqb, leb, ◌==◌,
}
use tore_legal_data_engine.Prelude.Text.{◌<>◌, is_blank}
use tore_legal_data_engine.Domain.SourceDocument.{same_text}
use tore_legal_data_engine.Net.Url.{Url, without_final_dot, ends_with}
use tore_legal_data_engine.Scraper.Retry.{
  RetryError, http_error, unsafe_redirect, robots_disallow, other, Attempt, failed, returned,
  with_retry,
}

pub record Request : Type 0 where
  pub url : Url
  -- in capitals
  pub method : String
  pub body : Option String

pub record Answer : Type 0 where
  pub status : ℕ
  pub location : Option String
  pub bytes : List ℕ

-- `BinaryHttpResponse`
pub record BinaryHttpResponse : Type 0 where
  pub status : ℕ
  pub url : Url
  pub bytes : List ℕ

abbrev pub Outcome : Type 0
Outcome = Attempt BinaryHttpResponse × List Request

-- `allowedRedirectHost`
unfoldable pub allowed_redirect_host : String → String → Bool
unfolding without_final_dot ends_with
allowed_redirect_host hostname origin =
    let host = without_final_dot hostname in
    let site = without_final_dot origin in same_text site host || ends_with ("." <> site) host

-- `isRedirectStatus`
abbrev pub is_redirect : ℕ → Bool
is_redirect s = eqb s 301 || (eqb s 302 || (eqb s 303 || (eqb s 307 || eqb s 308)))

-- The checks of `resolveSafeRedirect` on a link that was resolved; `none` is `UnsafeRedirectError`.
unfoldable pub safe_target : String → Url → Option Url
unfolding allowed_redirect_host
safe_target origin next =
    if not (next.protocol == "https:") && not (next.protocol == "http:")
    then none
    else if allowed_redirect_host next.hostname origin
    then some (record next { hash = "" })
    else none

module _ (resolve : Url → String → Option Url) (origin : String) where
  unfoldable resolved_target : Option Url → Option Url
  unfolding safe_target
  resolved_target none = none
  resolved_target (some next) = safe_target origin next

  -- `resolveSafeRedirect`
  unfoldable pub resolve_safe_redirect : Url → Option String → Option Url
  unfolding resolved_target is_blank
  resolve_safe_redirect from none = none
  resolve_safe_redirect from (some location) =
      if is_blank location then none else resolved_target (resolve from location)

-- The request after a redirect: some statuses make it a GET without a body.
unfoldable pub redirected : ℕ → Request → Url → Request
redirected status r next =
    if eqb status 301 || (eqb status 302 || eqb status 303)
    then record { url = next; method = "GET"; body = none }
    else record r { url = next }

-- `body: method === "GET" || method === "HEAD" ? undefined : body`
abbrev pub sent : Request → Request
sent r = record r { body = if r.method == "GET" || r.method == "HEAD" then none else r.body }

module _ (resolve : Url → String → Option Url) (robots : Url → Bool)
    (answer : List Request → Request → Option Answer) (origin : String) (skip_robots : Bool) where
  abbrev pub Onward : Type 0
  Onward = Request → List Request → Outcome

  -- From a redirect on.
  unfoldable pub follow_redirect : Onward → ℕ → Request → List Request → Option Url → Outcome
  unfolding redirected
  follow_redirect onward status r past none = (failed unsafe_redirect, past)
  follow_redirect onward status r past (some next) = onward (redirected status r next) past

  -- What is done with an answer; without one `fetch` throws.
  unfoldable pub on_answer : Onward → Request → List Request → Option Answer → Outcome
  unfolding follow_redirect resolve_safe_redirect
  on_answer onward r past none = (failed other, past)
  on_answer onward r past (some a) =
      if is_redirect a.status
      then follow_redirect onward a.status r past
          (resolve_safe_redirect resolve origin r.url a.location)
      else if eqb a.status 429 || leb 500 a.status
      then (failed (http_error a.status), past)
      else (returned (record { status = a.status; url = r.url; bytes = a.bytes }), past)

  -- One round of the loop; the Boolean tells that robots.txt lets it go on.
  unfoldable pub hop : Onward → Request → List Request → Bool → Outcome
  unfolding on_answer
  hop onward r past false = (failed robots_disallow, past)
  hop onward r past true = on_answer onward r (sent r ∷ past) (answer past (sent r))

  -- The loop over the hops after the first, with the number of redirects that are left.
  unfoldable pub hops : ℕ → Request → List Request → Outcome
  unfolding hop
  hops zero r past = hop (λ n t. (failed unsafe_redirect, t)) r past (skip_robots || robots r.url)
  hops (suc left) r past = hop (λ n t. hops left n t) r past (skip_robots || robots r.url)

  -- `requestBytes`; `max_retries` is the number of attempts. MAX_REDIRECTS is 5, and after the first
  -- redirect four are left.
  unfoldable pub request_bytes :
      ℕ → Request → List Request → Option (Attempt BinaryHttpResponse) × List Request
  unfolding hop hops with_retry
  request_bytes max_retries r past =
      if skip_robots || robots r.url
      then with_retry (λ attempt s. hop (λ n t. hops 4 n t) r s true) max_retries past
      else (some (failed robots_disallow), past)
