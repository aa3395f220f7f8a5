-- ===== src/Net/Backoff.antt =====
-- `backoffMs` of src/infrastructure/http/rate-limiter.ts and apps/scraper/src/http/retry.ts.
-- Attempts are numbered from one.
use tore_legal_data_engine.Prelude.{ℕ, zero, suc, ◌-◌, ◌*◌, ◌^◌, min, arith, ◌≡◌, ap}
use native.Mathlib.Omega.{pow_step}

unfoldable pub backoff_ms : ℕ → ℕ
backoff_ms attempt = min 16000 (500 * 2 ^ (attempt - 1))

-- Half a second, doubled a number of times, and never more than sixteen seconds.
unfoldable pub doubled : ℕ → ℕ
doubled zero = 500
doubled (suc n) = min 16000 (2 * doubled n)

less_one : (n : ℕ) → 2 ^ (suc n - 1) ≡ 2 ^ n
less_one n = ap (λ x. 2 ^ x) (omega arith)

capped : (n : ℕ) → min 16000 (500 * 2 ^ n) ≡ doubled n
unfolding doubled
capped zero = omega arith
capped (suc n) = omega (arith, capped n, pow_step 2 n)

-- The pause after the first attempt is half a second, and each later one is twice the one before it,
-- or sixteen seconds where that is more.
pub backoff_ms-doubled : (attempt : ℕ) → backoff_ms (suc attempt) ≡ doubled attempt
unfolding backoff_ms
backoff_ms-doubled attempt = omega (arith, capped attempt, less_one attempt)
