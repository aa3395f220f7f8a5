-- ===== src/Net/RateLimiter.antt =====
-- `RateLimiter` of src/infrastructure/http/rate-limiter.ts. Calls of `run` interleave where they wait, so
-- its progress is a step relation. A clock shows milliseconds; a timer fires at its time or later.
pub mod Spacing
use tore_legal_data_engine.Prelude.{ℕ, suc, ◌+◌, ◌≤◌, ◌<◌, List, [], ◌∷◌, ◌++◌, ◌≡◌, length}

-- `waiting` are the times at which calls that were let in wake up, `started` those at which operations
-- have started, the latest first.
pub record Limiter : Type 0 where
  pub now : ℕ
  pub next_allowed_at : ℕ
  pub in_flight : ℕ
  pub waiting : List ℕ
  pub started : List ℕ

abbrev pub new_limiter : ℕ → Limiter
new_limiter now = record {
  now = now;
  next_allowed_at = 0;
  in_flight = 0;
  waiting = [];
  started = [];
}

-- A call is let in.
abbrev pub let_in : Limiter → Limiter
let_in s = record s { in_flight = s.in_flight + 1 }

-- A call starts its operation.
abbrev pub begin : ℕ → Limiter → Limiter
begin interval s = record s { next_allowed_at = s.now + interval; started = s.now ∷ s.started }

pub data Step (interval max_concurrency : ℕ) : Limiter → Limiter → Type 0 where
  -- time goes on
  later : (s : Limiter) (t : ℕ) → s.now ≤ t → Step interval max_concurrency s (record s { now = t })
  -- a call that need not wait
  enter :
      (s : Limiter)
      → s.in_flight < max_concurrency
      → s.next_allowed_at ≤ s.now
      → Step interval max_concurrency s (begin interval (let_in s))
  -- a call that waits
  wait :
      (s : Limiter)
      → s.in_flight < max_concurrency
      → s.now < s.next_allowed_at
      → Step interval max_concurrency s
          (record (let_in s) { waiting = s.next_allowed_at ∷ s.waiting })
  -- a call that has waited
  wake :
      (s : Limiter) (before after : List ℕ) (time : ℕ)
      → s.waiting ≡ before ++ time ∷ after
      → time ≤ s.now
      → Step interval max_concurrency s (begin interval (record s { waiting = before ++ after }))
  -- an operation comes to its end, or throws
  finish :
      (s : Limiter) (others : ℕ)
      → s.in_flight ≡ suc others
      → length s.waiting ≤ others
      → Step interval max_concurrency s (record s { in_flight = others })

pub data Reachable (interval max_concurrency : ℕ) : Limiter → Type 0 where
  start : (now : ℕ) → Reachable interval max_concurrency (new_limiter now)
  next :
      (s t : Limiter)
      → Reachable interval max_concurrency s
      → Step interval max_concurrency s t
      → Reachable interval max_concurrency t
