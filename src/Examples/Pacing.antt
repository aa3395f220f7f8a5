-- ===== src/Examples/Pacing.antt =====
-- Two calls, one after the other.
use tore_legal_data_engine.Prelude.{ℕ, [], ◌∷◌, ◌≡◌, refl, arith}
use tore_legal_data_engine.Net.RateLimiter.{
  Limiter, Reachable, start, next, enter, wait, finish, later, wake, new_limiter, let_in, begin,
}
use tore_legal_data_engine.Net.RateLimiter.Spacing.{
  IsLimited, IsSpaced, Reachable-IsLimited, Reachable-IsSpaced, Reachable-crowded,
}

abbrev first : Limiter
first = begin 1000 (let_in (new_limiter 5))

abbrev ended : Limiter
ended = record first { in_flight = 0 }

abbrev second : Limiter
second = record (let_in ended) { waiting = 1005 ∷ [] }

abbrev due : Limiter
due = record second { now = 1010 }

abbrev last : Limiter
last = begin 1000 (record due { waiting = [] })

reached : Reachable 1000 1 last
reached =
    let r1 : Reachable 1000 1 first =
      next (new_limiter 5) first (start 5) (enter (new_limiter 5) (omega arith) (omega arith)) in
    let r2 : Reachable 1000 1 ended = next first ended r1 (finish first 0 refl (omega arith)) in
    let r3 : Reachable 1000 1 second =
      next ended second r2 (wait ended (omega arith) (omega arith)) in
    let r4 : Reachable 1000 1 due = next second due r3 (later second 1010 (omega arith)) in
    next due last r4 (wake due [] [] 1005 refl (omega arith))

Reachable-IsLimited_example : IsLimited 1 last
Reachable-IsLimited_example = Reachable-IsLimited 1000 1 last reached

Reachable-IsSpaced_example : IsSpaced 1000 last.started
Reachable-IsSpaced_example = Reachable-IsSpaced 1000 last reached

Reachable-crowded_example :
    (s : Limiter) × (t : ℕ) × Reachable 1000 2 s × (s.started ≡ t ∷ t ∷ 0 ∷ [])
Reachable-crowded_example = Reachable-crowded 1000 2 (omega arith) (omega arith)
