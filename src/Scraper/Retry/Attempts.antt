-- ===== src/Scraper/Retry/Attempts.antt =====
-- Which attempt the outcome of `withRetry` is.
use tore_legal_data_engine.Prelude.{
  ℕ, zero, suc, some, true, false, ◌≡◌, ◌⊎◌, inl, inr, refl, Bool-cases,
}
use tore_legal_data_engine.Scraper.Retry.{
  RetryError, Attempt, failed, returned, is_retryable, retry_or, retry_from, with_retry,
}

module _ {A S : Type 0} (operation : ℕ → S → Attempt A × S) where
  -- An attempt after which there is none.
  abbrev pub IsLast : Attempt A → Type 0
  IsLast (returned a) = Unit
  IsLast (failed e) = is_retryable e ≡ false

  -- From an attempt and a state on: a chain of attempts that failed and are retried, and the outcome
  -- of the one after them, which is final or the last that is allowed.
  pub data Chain : ℕ → ℕ → S → Attempt A × S → Type 0 where
    final :
        (left attempt : ℕ) (s t : S) (a : Attempt A)
        → operation attempt s ≡ (a, t)
        → (left ≡ 0) ⊎ IsLast a
        → Chain left attempt s (a, t)
    again :
        (left attempt : ℕ) (s t : S) (e : RetryError) (o : Attempt A × S)
        → operation attempt s ≡ (failed e, t)
        → is_retryable e ≡ true
        → Chain left (suc attempt) t o
        → Chain (suc left) attempt s o

  -- The steps of the attempt that may be followed by others.
  tried :
      (left attempt : ℕ) (s : S) (o : Attempt A × S)
      → operation attempt s ≡ o
      → ((t : S) → Chain left (suc attempt) t (retry_from operation left (suc attempt) t))
      → Chain (suc left) attempt s (retry_or (λ t. retry_from operation left (suc attempt) t) o)
  unfolding retry_or
  tried left attempt s (returned a, t) e rest = final (suc left) attempt s t (returned a) e (inr tt)
  tried left attempt s (failed x, t) e rest = elim (Bool-cases (is_retryable x)) [
    | inl y ↦
        rw y (again left attempt s t x (retry_from operation left (suc attempt) t) e y (rest t))
    | inr n ↦ rw n (final (suc left) attempt s t (failed x) e (inr n))
  ]

  -- What an attempt of `withRetry` returns, or throws, when it is the last that is allowed.
  ended : (attempt : ℕ) (s : S) (o : Attempt A × S) → operation attempt s ≡ o → Chain 0 attempt s o
  ended attempt s (a, t) e = final 0 attempt s t a e (inl refl)

  retry_from-Chain :
      (left attempt : ℕ) (s : S) → Chain left attempt s (retry_from operation left attempt s)
  unfolding retry_from
  retry_from-Chain zero attempt s = ended attempt s (operation attempt s) refl
  retry_from-Chain (suc left) attempt s =
      tried left attempt s (operation attempt s) refl (λ t. retry_from-Chain left (suc attempt) t)

  -- `withRetry` with `maxRetries` of one or more returns or throws what one of its attempts, numbered
  -- from 1, did. Each attempt before that one threw an error that may be retried and left the state that
  -- the next one starts in. That one returned, threw an error that may not be retried, or is the
  -- `maxRetries`-th.
  pub with_retry-Chain :
      (left : ℕ) (s : S)
      → (a : Attempt A) × (t : S) × (with_retry operation (suc left) s ≡ (some a, t))
        × Chain left 1 s (a, t)
  unfolding with_retry
  with_retry-Chain left s =
      let o = retry_from operation left 1 s in (o.0, o.1, refl, retry_from-Chain left 1 s)
