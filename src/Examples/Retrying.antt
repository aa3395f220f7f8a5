-- ===== src/Examples/Retrying.antt =====
-- Retries of an operation that fails in the ways an HTTP request does.
use tore_legal_data_engine.Prelude.{ℕ, zero, suc, ◌+◌, some, ◌≡◌, refl}
use tore_legal_data_engine.Scraper.Retry.{
  http_error, robots_disallow, Attempt, failed, returned, with_retry,
}
use tore_legal_data_engine.Scraper.Retry.Attempts.{Chain, with_retry-Chain}

-- The server is busy twice and then answers; the state counts the requests.
unfoldable busy_twice : ℕ → ℕ → Attempt ℕ × ℕ
busy_twice zero s = (failed robots_disallow, s + 1)
busy_twice (suc zero) s = (failed (http_error 503), s + 1)
busy_twice (suc (suc zero)) s = (failed (http_error 429), s + 1)
busy_twice (suc (suc (suc n))) s = (returned 200, s + 1)

answered_third : with_retry busy_twice 5 0 ≡ (some (returned 200), 3)
unfolding with_retry busy_twice
answered_third = refl

gave_up : with_retry busy_twice 2 0 ≡ (some (failed (http_error 429)), 2)
unfolding with_retry busy_twice
gave_up = refl

unfoldable never_allowed : ℕ → ℕ → Attempt ℕ × ℕ
never_allowed attempt s = (failed robots_disallow, s + 1)

not_retried : with_retry never_allowed 5 0 ≡ (some (failed robots_disallow), 1)
unfolding with_retry never_allowed
not_retried = refl

with_retry-Chain_example :
    (a : Attempt ℕ) × (t : ℕ) × (with_retry busy_twice 5 0 ≡ (some a, t))
    × Chain busy_twice 4 1 0 (a, t)
with_retry-Chain_example = with_retry-Chain busy_twice 4 0
