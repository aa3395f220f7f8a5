-- ===== src/Scraper/Requests/Origin.antt =====
-- Where the scraper sends requests.
use tore_legal_data_engine.Prelude.{
  ℕ, zero, suc, String, Option, none, some, List, ◌∷◌, Bool, true, false, ◌||◌, ◌≡◌, ◌⊎◌, inl, inr,
  refl, arith, eq_iff, All, Bool-cases, subst, eqb, leb, sym,
}
use tore_legal_data_engine.Net.Url.{Url}
use tore_legal_data_engine.Scraper.Retry.{
  RetryError, Attempt, failed, returned, is_retryable, retry_or, retry_from, with_retry,
}
use tore_legal_data_engine.Scraper.Requests.{
  Request, Answer, Outcome, allowed_redirect_host, is_redirect, safe_target, resolved_target,
  resolve_safe_redirect, redirected, sent, follow_redirect, on_answer, hop, hops, request_bytes,
}

module _ {A S : Type 0} (operation : ℕ → S → Attempt A × S) (P : S → Type 0)
    (keeps : (attempt : ℕ) (s : S) → P s → P (operation attempt s).1) where
  retry_or-keeps :
      (again : S → Attempt A × S) (o : Attempt A × S)
      → ((s : S) → P s → P (again s).1)
      → P o.1
      → P (retry_or again o).1
  unfolding retry_or
  retry_or-keeps again (returned a, s) next h = h
  retry_or-keeps again (failed e, s) next h = elim (Bool-cases (is_retryable e)) [
    | inl y ↦ rw y (next s h)
    | inr n ↦ rw n h
  ]

  retry_from-keeps : (left attempt : ℕ) (s : S) → P s → P (retry_from operation left attempt s).1
  unfolding retry_from
  retry_from-keeps zero attempt s h = keeps attempt s h
  retry_from-keeps (suc left) attempt s h =
      retry_or-keeps (λ t. retry_from operation left (suc attempt) t) (operation attempt s)
        (λ t k. retry_from-keeps left (suc attempt) t k) (keeps attempt s h)

  with_retry-keeps : (retries : ℕ) (s : S) → P s → P (with_retry operation retries s).1
  unfolding with_retry
  with_retry-keeps zero s h = h
  with_retry-keeps (suc left) s h = retry_from-keeps left 1 s h

-- A URL over HTTP or HTTPS on the host of the origin or below it.
abbrev pub IsOnOrigin : String → Url → Type 0
IsOnOrigin origin u =
    ((u.protocol ≡ "https:") ⊎ (u.protocol ≡ "http:"))
    × (allowed_redirect_host u.hostname origin ≡ true)

safe_target-IsOnOrigin :
    (origin : String) (next u : Url) → safe_target origin next ≡ some u → IsOnOrigin origin u
unfolding safe_target
safe_target-IsOnOrigin origin next u h =
    ground (arith, eq_iff next.protocol "https:", eq_iff next.protocol "http:")

module _ (resolve : Url → String → Option Url) (robots : Url → Bool)
    (answer : List Request → Request → Option Answer) (origin : String) (skip_robots : Bool)
    (start : Url) where
  -- A request to the URL that was asked for, or to one on the origin, that robots.txt allows where it
  -- is heeded.
  abbrev pub IsProper : Request → Type 0
  IsProper r = ((r.url ≡ start) ⊎ IsOnOrigin origin r.url) × ((skip_robots || robots r.url) ≡ true)

  abbrev IsFrom : Url → Type 0
  IsFrom u = (u ≡ start) ⊎ IsOnOrigin origin u

  resolved_target-IsOnOrigin :
      (next : Option Url) (u : Url)
      → resolved_target resolve origin next ≡ some u
      → IsOnOrigin origin u
  unfolding resolved_target
  resolved_target-IsOnOrigin none u h = ground arith
  resolved_target-IsOnOrigin (some next) u h = safe_target-IsOnOrigin origin next u h

  resolve_safe_redirect-IsOnOrigin :
      (from : Url) (location : Option String) (u : Url)
      → resolve_safe_redirect resolve origin from location ≡ some u
      → IsOnOrigin origin u
  unfolding resolve_safe_redirect
  resolve_safe_redirect-IsOnOrigin from none u h = ground arith
  resolve_safe_redirect-IsOnOrigin from (some location) u h =
      ground (arith, resolved_target-IsOnOrigin (resolve from location) u)

  abbrev Keeps : (Request → List Request → Outcome) → Type 0
  Keeps onward =
      (r : Request) (past : List Request)
      → IsFrom r.url
      → All IsProper past
      → All IsProper (onward r past).1

  redirected-url : (status : ℕ) (r : Request) (next : Url) → (redirected status r next).url ≡ next
  unfolding redirected
  redirected-url status r next = ground arith

  follow_redirect-IsProper :
      (onward : Request → List Request → Outcome) (status : ℕ) (r : Request) (past : List Request)
      (o : Option Url)
      → Keeps onward
      → ((u : Url) → o ≡ some u → IsOnOrigin origin u)
      → All IsProper past
      → All IsProper
          (follow_redirect resolve robots answer origin skip_robots onward status r past o).1
  unfolding follow_redirect
  follow_redirect-IsProper onward status r past none keeps on proper = proper
  follow_redirect-IsProper onward status r past (some u) keeps on proper =
      keeps (redirected status r u) past
        (subst IsFrom (sym (redirected-url status r u)) (inr (on u refl))) proper

  on_answer-IsProper :
      (onward : Request → List Request → Outcome) (r : Request) (past : List Request)
      (a : Option Answer)
      → Keeps onward
      → All IsProper past
      → All IsProper (on_answer resolve robots answer origin skip_robots onward r past a).1
  unfolding on_answer
  on_answer-IsProper onward r past none keeps proper = proper
  on_answer-IsProper onward r past (some a) keeps proper =
      elim (Bool-cases (is_redirect a.status)) [
        | inl x ↦ rw x (
            follow_redirect-IsProper onward a.status r past
              (resolve_safe_redirect resolve origin r.url a.location) keeps
              (λ u h. resolve_safe_redirect-IsOnOrigin r.url a.location u h) proper)
        | inr x ↦ elim (Bool-cases (eqb a.status 429 || leb 500 a.status)) [
          | inl y ↦ rw x (rw y proper)
          | inr y ↦ rw x (rw y proper)
        ]
      ]

  hop-IsProper :
      (onward : Request → List Request → Outcome) (r : Request) (past : List Request) (b : Bool)
      → (skip_robots || robots r.url) ≡ b
      → Keeps onward
      → IsFrom r.url
      → All IsProper past
      → All IsProper (hop resolve robots answer origin skip_robots onward r past b).1
  unfolding hop
  hop-IsProper onward r past false e keeps from proper = proper
  hop-IsProper onward r past true e keeps from proper =
      on_answer-IsProper onward r (sent r ∷ past) (answer past (sent r)) keeps ((from, e), proper)

  hops-IsProper :
      (left : ℕ) (r : Request) (past : List Request)
      → IsFrom r.url
      → All IsProper past
      → All IsProper (hops resolve robots answer origin skip_robots left r past).1
  unfolding hops
  hops-IsProper zero r past from proper =
      hop-IsProper (λ n t. (failed RetryError.unsafe_redirect, t)) r past
        (skip_robots || robots r.url) refl (λ n t f k. k) from proper
  hops-IsProper (suc left) r past from proper =
      hop-IsProper (λ n t. hops resolve robots answer origin skip_robots left n t) r past
        (skip_robots || robots r.url) refl (λ n t f k. hops-IsProper left n t f k) from proper

  -- Every request that `requestBytes` adds to proper ones, over its attempts and redirects, goes to the
  -- URL that it was given, or over HTTP or HTTPS to the host of the origin or one below it. Unless
  -- robots.txt is skipped, it allows each of these URLs.
  pub request_bytes-IsProper :
      (max_retries : ℕ) (r : Request) (past : List Request)
      → r.url ≡ start
      → All IsProper past
      → All IsProper (request_bytes resolve robots answer origin skip_robots max_retries r past).1
  unfolding request_bytes
  request_bytes-IsProper max_retries r past from proper =
      elim (Bool-cases (skip_robots || robots r.url)) [
        | inl x ↦ rw x (
            with_retry-keeps
              (λ attempt s.
                hop resolve robots answer origin skip_robots
                  (λ n t. hops resolve robots answer origin skip_robots 4 n t) r s true)
              (λ s. All IsProper s)
              (λ attempt s k.
                hop-IsProper (λ n t. hops resolve robots answer origin skip_robots 4 n t) r s true x
                  (λ n t f h. hops-IsProper 4 n t f h) (inl from) k)
              max_retries past proper)
        | inr x ↦ rw x proper
      ]
