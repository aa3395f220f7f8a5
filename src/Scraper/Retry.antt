-- ===== src/Scraper/Retry.antt =====
-- `withRetry` of apps/scraper/src/http/retry.ts. The operation acts on a state of its own; the log and
-- the pauses are left out.
pub mod Attempts
use tore_legal_data_engine.Prelude.{
  ℕ, zero, suc, Option, none, some, Bool, true, false, ◌||◌, if◌then◌else◌, eqb, leb,
}

-- What an operation throws.
pub data RetryError : Type 0 where
  http_error : ℕ → RetryError
  unsafe_redirect robots_disallow other : RetryError

pub data Attempt (A : Type 0) : Type 0 where
  failed : RetryError → Attempt A
  returned : A → Attempt A

-- `isRetryable`
unfoldable pub is_retryable : RetryError → Bool
is_retryable (http_error status) = eqb status 429 || leb 500 status
is_retryable unsafe_redirect = false
is_retryable robots_disallow = false
is_retryable other = true

module _ {A S : Type 0} where
  -- After an attempt that is not the last: another one, if it failed and may be retried.
  unfoldable pub retry_or : (S → Attempt A × S) → Attempt A × S → Attempt A × S
  retry_or again (returned a, s) = (returned a, s)
  retry_or again (failed e, s) =
      let next = again s in if is_retryable e then next else (failed e, s)

  module _ (operation : ℕ → S → Attempt A × S) where
    -- The loop from an attempt on, with the number of attempts left after it.
    unfoldable pub retry_from : ℕ → ℕ → S → Attempt A × S
    unfolding retry_or is_retryable
    retry_from zero attempt s = operation attempt s
    retry_from (suc left) attempt s =
        retry_or (λ t. retry_from left (suc attempt) t) (operation attempt s)

    abbrev thrown_or_returned : Attempt A × S → Option (Attempt A) × S
    thrown_or_returned (a, s) = (some a, s)

    -- `withRetry`; with no attempt allowed it throws `undefined`, which is `none` here.
    unfoldable pub with_retry : ℕ → S → Option (Attempt A) × S
    unfolding retry_from
    with_retry zero s = (none, s)
    with_retry (suc left) s = thrown_or_returned (retry_from left 1 s)
