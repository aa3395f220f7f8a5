-- ===== src/Net/Downloader/Bounded.antt =====
-- How many requests the downloader sends.
use tore_legal_data_engine.Prelude.{
  ℕ, zero, suc, ◌+◌, ◌*◌, ◌≤◌, String, Option, List, ◌∷◌, Bool, arith, length, inl, inr,
}
use tore_legal_data_engine.Prelude.Result.{Result, ok, err, Result-cases}
use tore_legal_data_engine.Net.Url.{Url, ingest_error, assert_https_legal_info_url}
use tore_legal_data_engine.Net.Downloader.{
  Fetch, Response, Trace, redirect_target, check_target, follow, attempt, download, on_response,
  send, go_on, retry_after, Outcome, max_redirects,
}

module _ (parse_url : String → Option Url) (to_string : Url → String)
    (resolve : Url → String → Option Url) (is_ip : String → Bool)
    (resolve_host : Trace → String → List String) (decode : List ℕ → String)
    (fetch : Trace → Url → Result Response) where
  on_response-length :
      (n : ℕ) (start : String) (limit : ℕ) (target : Fetch) (past : Trace)
      (redirect : Url → Response → Trace → Outcome) (r : Result Response)
      → ((from : Url) (s : Response) (t : Trace) → length (redirect from s t).1 ≤ length t + n)
      → length
          (on_response parse_url to_string resolve is_ip resolve_host decode fetch start limit
            target past redirect r).1
        ≤ length past + suc n
  unfolding on_response
  on_response-length n start limit target past redirect (err e) h = omega arith
  on_response-length n start limit target past redirect (ok r) h =
      ground (arith, h target.url r (target ∷ past))

  send-length :
      (n : ℕ) (start : String) (limit : ℕ) (past : Trace)
      (redirect : Url → Response → Trace → Outcome) (c : Result Fetch)
      → ((from : Url) (s : Response) (t : Trace) → length (redirect from s t).1 ≤ length t + n)
      → length
          (send parse_url to_string resolve is_ip resolve_host decode fetch start limit past
            redirect c).1
        ≤ length past + suc n
  unfolding send
  send-length n start limit past redirect (err e) h = omega arith
  send-length n start limit past redirect (ok target) h =
      on_response-length n start limit target past redirect (fetch past target.url) h

  go_on-length :
      (n : ℕ) (onward : String → Trace → Outcome) (past : Trace) (r : Result Url)
      → ((next : String) (t : Trace) → length (onward next t).1 ≤ length t + n)
      → length (go_on parse_url to_string resolve is_ip resolve_host decode fetch onward past r).1
        ≤ length past + n
  unfolding go_on
  go_on-length n onward past (err e) h = omega arith
  go_on-length n onward past (ok next) h = h (to_string next) past

  follow-length :
      (start : String) (limit hops : ℕ) (current : String) (past : Trace)
      → length
          (follow parse_url to_string resolve is_ip resolve_host decode fetch start limit hops
            current past).1
        ≤ length past + suc hops
  unfolding follow
  follow-length start limit zero current past =
      send-length 0 start limit past
        (λ from r t. (err (ingest_error "redirect" "Too many redirects"), t))
        (check_target parse_url to_string resolve is_ip resolve_host decode fetch past current)
        (λ from r t. omega arith)
  follow-length start limit (suc hops) current past =
      send-length (suc hops) start limit past
        (λ from r t.
          go_on parse_url to_string resolve is_ip resolve_host decode fetch
            (λ next u.
              follow parse_url to_string resolve is_ip resolve_host decode fetch start limit hops
                next u)
            t (redirect_target parse_url to_string resolve is_ip resolve_host decode fetch from r))
        (check_target parse_url to_string resolve is_ip resolve_host decode fetch past current)
        (λ from r t.
          go_on-length (suc hops)
            (λ next u.
              follow parse_url to_string resolve is_ip resolve_host decode fetch start limit hops
                next u)
            t (redirect_target parse_url to_string resolve is_ip resolve_host decode fetch from r)
            (λ next u. follow-length start limit hops next u))

  retry_after-length :
      (n : ℕ) (again : Trace → Outcome) (o : Outcome)
      → ((t : Trace) → length (again t).1 ≤ length t + n)
      → length (retry_after parse_url to_string resolve is_ip resolve_host decode fetch again o).1
        ≤ length o.1 + n
  unfolding retry_after
  retry_after-length n again (ok d, past) h = omega arith
  retry_after-length n again (err e, past) h = ground (arith, h past)

  attempt-length :
      (retries : ℕ) (start : String) (limit : ℕ) (past : Trace)
      → length
          (attempt parse_url to_string resolve is_ip resolve_host decode fetch retries start limit
            past).1
        ≤ length past + suc retries * 6
  unfolding attempt
  attempt-length zero start limit past =
      omega (arith, follow-length start limit max_redirects start past)
  attempt-length (suc retries) start limit past = omega (
    arith,
    follow-length start limit max_redirects start past,
    retry_after-length (suc retries * 6)
        (λ t.
          attempt parse_url to_string resolve is_ip resolve_host decode fetch retries start limit t)
        (follow parse_url to_string resolve is_ip resolve_host decode fetch start limit
          max_redirects start past)
        (λ t. attempt-length retries start limit t),
  )

  -- A download sends at most six requests in each of its attempts, of which there are one more than
  -- the retries it is allowed.
  pub download_request_bounds :
      (retries limit : ℕ) (url : String) (past : Trace)
      → length
          (download parse_url to_string resolve is_ip resolve_host decode fetch retries limit url
            past).1
        ≤ length past + suc retries * 6
  unfolding download
  download_request_bounds retries limit url past =
      elim (Result-cases (assert_https_legal_info_url parse_url url)) [
        | inl (u, e) ↦ ground (arith, attempt-length retries (to_string u) limit past)
        | inr (f, e) ↦ ground arith
      ]
