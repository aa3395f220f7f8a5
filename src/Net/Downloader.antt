-- ===== src/Net/Downloader.antt =====
-- src/infrastructure/http/safe-https-downloader.ts: `SafeHttpsDownloader`. What the platform does is a
-- parameter: taking URLs apart, resolving names, and fetching, each of which may depend on what was
-- fetched before. The state is the list of the fetches, the latest first.
pub mod Safe
pub mod Bounded
use tore_legal_data_engine.Prelude.{
  ℕ, zero, suc, ◌+◌, String, Option, none, some, List, [], ◌∷◌, ◌++◌, Bool, true, false, not, ◌&&◌,
  ◌||◌, if◌then◌else◌, leb, ltb, eqb, length, or_else, ◌==◌,
}
use tore_legal_data_engine.Prelude.Text.{◌<>◌, trim, parse_natural}
use tore_legal_data_engine.Prelude.Result.{DomainError, Result, ok, err, ◌>>=◌, ◌>>◌}
use tore_legal_data_engine.Domain.SourceDocument.{
  same_text, before_semicolon, looks_like_pdf, looks_like_html,
}
use tore_legal_data_engine.Net.Url.{
  Url, ingest_error, deny_if, assert_https_legal_info_url, check_url,
}
use tore_legal_data_engine.Net.Addresses.{assert_public_resolved_addresses}

-- One request that was sent.
pub record Fetch : Type 0 where
  pub url : Url
  pub addresses : List String

pub record Response : Type 0 where
  pub status : ℕ
  pub location : Option String
  pub content_type : Option String
  pub content_length : Option String
  -- the chunks of the body as they arrive
  pub body : List (List ℕ)

pub record DownloadResult : Type 0 where
  pub url : String
  pub retrieved_url : String
  pub bytes : List ℕ
  pub mime_type : String
  pub http_status : ℕ

abbrev pub max_redirects : ℕ
max_redirects = 5

-- `isRedirectStatus`
abbrev pub is_redirect_status : ℕ → Bool
is_redirect_status s = eqb s 301 || (eqb s 302 || (eqb s 303 || (eqb s 307 || eqb s 308)))

-- `BLOCKED_TYPES` and `ALLOWED_TYPES`
unfoldable pub is_blocked_type : String → Bool
is_blocked_type media =
    same_text "application/zip" media
    || (same_text "application/x-zip-compressed" media
        || (same_text "application/gzip" media
            || (same_text "application/x-gzip" media || same_text "multipart/x-zip" media)))

unfoldable pub is_allowed_type : String → Bool
is_allowed_type media =
    same_text "text/html" media
    || (same_text "application/xhtml+xml" media
        || (same_text "application/pdf" media
            || (same_text "application/msword" media
                || (same_text
                      "application/vnd.openxmlformats-officedocument.wordprocessingml.document"
                      media
                    || same_text "text/plain" media))))

-- The loop of `readLimitedBody` over the chunks; the size is checked before a chunk is kept.
unfoldable pub read_chunks : ℕ → List ℕ → List (List ℕ) → Result (List ℕ)
read_chunks limit read [] = ok read
read_chunks limit read (c ∷ rest) =
    let more = read_chunks limit (read ++ c) rest in
    if ltb limit (length read + length c)
    then err (ingest_error "too_large" "Response exceeds size limit")
    else more

unfoldable pub read_limited_body : Response → ℕ → Result (List ℕ)
read_limited_body r limit = read_chunks limit [] r.body

-- `Number.isFinite(declared) && declared > maxBytes`
abbrev pub declared_too_large : Option ℕ → ℕ → Bool
declared_too_large none limit = false
declared_too_large (some n) limit = ltb limit n

abbrev pub media_of : Response → String
media_of r = trim (before_semicolon (or_else r.content_type "application/octet-stream"))

-- `error instanceof IngestError && error.code === "http_transient"`
abbrev pub is_retryable : DomainError → Bool
is_retryable e = e.code == "http_transient"

abbrev pub Trace : Type 0
Trace = List Fetch

abbrev pub Outcome : Type 0
Outcome = Result DownloadResult × Trace

module _ (parse_url : String → Option Url) (to_string : Url → String)
    (resolve : Url → String → Option Url) (is_ip : String → Bool)
    (resolve_host : Trace → String → List String) (decode : List ℕ → String)
    (fetch : Trace → Url → Result Response) where
  -- The next URL of a redirect.
  unfoldable pub redirect_target : Url → Response → Result Url
  redirect_target from r = elim r.location [
    | none ↦ err (ingest_error "redirect" "Redirect missing Location header")
    | some location ↦
        if location == ""
        then err (ingest_error "redirect" "Redirect missing Location header")
        else elim (resolve from location) [
          | none ↦ err (ingest_error "redirect" "Redirect Location is not a valid URL")
          | some next ↦ assert_https_legal_info_url parse_url (to_string next)
        ]
  ]

  -- What is done with a response that is no redirect. The messages leave out the status and the URL.
  unfoldable pub accept_response : String → ℕ → Url → Response → Result DownloadResult
  accept_response start limit from r = do
    deny_if (eqb r.status 429 || leb 500 r.status) "http_transient" "HTTP error"
    deny_if (leb 400 r.status) "http_error" "HTTP error"
    deny_if (is_blocked_type (media_of r)) "content_type" "Blocked content type"
    deny_if (declared_too_large (parse_natural (or_else r.content_length "")) limit) "too_large"
        "Response exceeds size limit"
    bytes ← read_limited_body r limit
    deny_if
        (not (is_allowed_type (media_of r))
          && (not (looks_like_html decode bytes) && not (looks_like_pdf bytes)))
        "content_type" "Unexpected content type"
    ok (record {
      url = start;
      retrieved_url = to_string from;
      bytes = bytes;
      mime_type = or_else r.content_type "application/octet-stream";
      http_status = r.status;
    })

  -- The checks before a request, and the addresses that the name resolved to.
  unfoldable pub check_target : Trace → String → Result Fetch
  check_target past current = do
    u ← assert_https_legal_info_url parse_url current
    assert_public_resolved_addresses is_ip u.hostname (resolve_host past u.hostname)
    ok (record { url = u; addresses = resolve_host past u.hostname })

  -- The answer to a request that was sent; `redirect` goes on from a redirect.
  unfoldable pub on_response :
      String → ℕ → Fetch → Trace → (Url → Response → Trace → Outcome) → Result Response → Outcome
  on_response start limit target past redirect (err e) = (err e, target ∷ past)
  on_response start limit target past redirect (ok r) =
      if is_redirect_status r.status
      then redirect target.url r (target ∷ past)
      else (accept_response start limit target.url r, target ∷ past)

  -- One round of the loop in `follow`, from what the checks say of its URL.
  unfoldable pub send :
      String → ℕ → Trace → (Url → Response → Trace → Outcome) → Result Fetch → Outcome
  send start limit past redirect (err e) = (err e, past)
  send start limit past redirect (ok target) =
      on_response start limit target past redirect (fetch past target.url)

  unfoldable pub go_on : (String → Trace → Outcome) → Trace → Result Url → Outcome
  go_on onward past (err e) = (err e, past)
  go_on onward past (ok next) = onward (to_string next) past

  -- `follow`, with the number of redirects that are left: on the last hop a redirect is an error.
  unfoldable pub follow : String → ℕ → ℕ → String → Trace → Outcome
  unfolding check_target send on_response go_on
  follow start limit zero current past =
      send start limit past (λ from r t. (err (ingest_error "redirect" "Too many redirects"), t))
        (check_target past current)
  follow start limit (suc hops) current past =
      send start limit past
        (λ from r t. go_on (λ next u. follow start limit hops next u) t (redirect_target from r))
        (check_target past current)

  -- After an attempt: another one, where its error is transient and one is left.
  unfoldable pub retry_after : (Trace → Outcome) → Outcome → Outcome
  retry_after again (ok d, past) = (ok d, past)
  retry_after again (err e, past) =
      let next = again past in if is_retryable e then next else (err e, past)

  -- The loop of `downloadResolved`, with the number of retries that are left.
  unfoldable pub attempt : ℕ → String → ℕ → Trace → Outcome
  unfolding follow retry_after
  attempt zero start limit past = follow start limit max_redirects start past
  attempt (suc retries) start limit past =
      retry_after (λ t. attempt retries start limit t) (follow start limit max_redirects start past)

  -- `download`; the rate limiter before it is not part of this.
  unfoldable pub download : ℕ → ℕ → String → Trace → Outcome
  download retries limit url past =
      if url == ""
      then (err (ingest_error "invalid_url" "A LegalInfo URL is required"), past)
      else elim (assert_https_legal_info_url parse_url url) [
        | err e ↦ (err e, past)
        | ok u ↦ attempt retries (to_string u) limit past
      ]
