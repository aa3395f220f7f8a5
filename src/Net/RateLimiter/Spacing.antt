-- ===== src/Net/RateLimiter/Spacing.antt =====
-- What the limiter keeps: how many operations run, and the time between their starts.
use tore_legal_data_engine.Prelude.{
  ℕ, ◌+◌, ◌≤◌, List, [], ◌∷◌, ◌++◌, ◌≡◌, refl, arith, length, length-append, All, All-of_append,
  subst, ap,
}
use tore_legal_data_engine.Net.RateLimiter.{
  Limiter, Step, later, enter, wait, wake, finish, Reachable, start, next, new_limiter, let_in,
  begin,
}

-- Every start is at least the interval after the one before it.
abbrev pub IsSpaced : ℕ → List ℕ → Type 0
IsSpaced interval [] = Unit
IsSpaced interval (t ∷ []) = Unit
IsSpaced interval (t ∷ u ∷ rest) = (u + interval ≤ t) × IsSpaced interval (u ∷ rest)

pub record IsLimited (max_concurrency : ℕ) (s : Limiter) : Type 0 where
  pub capped : s.in_flight ≤ max_concurrency
  pub counted : length s.waiting ≤ s.in_flight

step-IsLimited :
    (interval max_concurrency : ℕ) (s t : Limiter)
    → Step interval max_concurrency s t
    → IsLimited max_concurrency s
    → IsLimited max_concurrency t
step-IsLimited interval max_concurrency _ _ (later s t le) i = record {
  capped = i.capped;
  counted = i.counted;
}
step-IsLimited interval max_concurrency _ _ (enter s lt le) i = record {
  capped = omega arith;
  counted = omega (arith, i.counted);
}
step-IsLimited interval max_concurrency _ _ (wait s lt le) i = record {
  capped = omega arith;
  counted = omega (arith, i.counted);
}
step-IsLimited interval max_concurrency _ _ (wake s before after time e le) i = record {
  capped = i.capped;
  counted = omega (
    arith,
    i.counted,
    length-append before (time ∷ after),
    length-append before after,
    ap length e,
  );
}
step-IsLimited interval max_concurrency _ _ (finish s others e le) i = record {
  capped = omega (arith, i.capped);
  counted = le;
}

-- In every state that the limiter can reach, no more operations are in flight than allowed, the
-- waiting ones included.
pub Reachable-IsLimited :
    (interval max_concurrency : ℕ) (s : Limiter)
    → Reachable interval max_concurrency s
    → IsLimited max_concurrency s
Reachable-IsLimited interval max_concurrency _ (start now) = record {
  capped = omega arith;
  counted = omega arith;
}
Reachable-IsLimited interval max_concurrency _ (next r t reach step) =
    step-IsLimited interval max_concurrency r t step
      (Reachable-IsLimited interval max_concurrency r reach)

-- The start after next is not yet due.
abbrev IsDue : ℕ → ℕ → List ℕ → Type 0
IsDue interval next_allowed_at [] = Unit
IsDue interval next_allowed_at (t ∷ rest) = t + interval ≤ next_allowed_at

-- With one call in flight at a time: a waiting call wakes when the next start is allowed.
record IsPaced (interval : ℕ) (s : Limiter) : Type 0 where
  spaced : IsSpaced interval s.started
  due : IsDue interval s.next_allowed_at s.started
  timely : All (λ w. s.next_allowed_at ≤ w) s.waiting

IsSpaced-cons :
    (interval now next_allowed_at : ℕ) (started : List ℕ)
    → IsSpaced interval started
    → IsDue interval next_allowed_at started
    → next_allowed_at ≤ now
    → IsSpaced interval (now ∷ started)
IsSpaced-cons interval now next_allowed_at [] spaced due le = tt
IsSpaced-cons interval now next_allowed_at (t ∷ rest) spaced due le = (omega arith, spaced)

All-short : (P : ℕ → Type 0) (xs : List ℕ) → length xs ≤ 0 → All P xs
All-short P [] h = tt
All-short P (x ∷ xs) h = absurd (omega arith)

step-IsPaced :
    (interval : ℕ) (s t : Limiter)
    → Step interval 1 s t
    → IsLimited 1 s
    → IsPaced interval s
    → IsPaced interval t
step-IsPaced interval _ _ (later s t le) i p = record {
  spaced = p.spaced;
  due = p.due;
  timely = p.timely;
}
step-IsPaced interval _ _ (enter s lt le) i p = record {
  spaced = IsSpaced-cons interval s.now s.next_allowed_at s.started p.spaced p.due le;
  due = omega arith;
  timely = All-short (λ w. s.now + interval ≤ w) s.waiting (omega (arith, i.counted));
}
step-IsPaced interval _ _ (wait s lt le) i p = record {
  spaced = p.spaced;
  due = p.due;
  timely = (omega arith, p.timely);
}
step-IsPaced interval _ _ (wake s before after time e le) i p = record {
  spaced = IsSpaced-cons interval s.now s.next_allowed_at s.started p.spaced p.due (
      omega (
        arith,
        (All-of_append (λ w. s.next_allowed_at ≤ w) before (time ∷ after)
            (subst (All (λ w. s.next_allowed_at ≤ w)) e p.timely)).1.0,
      ));
  due = omega arith;
  timely =
      All-short (λ w. s.now + interval ≤ w) (before ++ after)
        (omega (
          arith,
          i.counted,
          i.capped,
          length-append before (time ∷ after),
          length-append before after,
          ap length e,
        ));
}
step-IsPaced interval _ _ (finish s others e le) i p = record {
  spaced = p.spaced;
  due = p.due;
  timely = p.timely;
}

Reachable-IsPaced : (interval : ℕ) (s : Limiter) → Reachable interval 1 s → IsPaced interval s
Reachable-IsPaced interval _ (start now) = record { spaced = tt; due = tt; timely = tt }
Reachable-IsPaced interval _ (next r t reach step) =
    step-IsPaced interval r t step (Reachable-IsLimited interval 1 r reach)
      (Reachable-IsPaced interval r reach)

-- With at most one call in flight, every operation starts at least the interval after the one before.
pub Reachable-IsSpaced :
    (interval : ℕ) (s : Limiter) → Reachable interval 1 s → IsSpaced interval s.started
Reachable-IsSpaced interval s reach = (Reachable-IsPaced interval s reach).spaced

-- With two calls or more allowed in flight, two operations may start at one time, whatever the
-- interval is, if there is one: both wait for the same moment.
pub Reachable-crowded :
    (interval max_concurrency : ℕ)
    → 1 ≤ interval
    → 2 ≤ max_concurrency
    → (s : Limiter) × (t : ℕ) × Reachable interval max_concurrency s × (s.started ≡ t ∷ t ∷ 0 ∷ [])
Reachable-crowded interval max_concurrency h k =
    let s0 = new_limiter 0 in
    let s1 : Limiter = begin interval (let_in s0) in
    let moment = s1.next_allowed_at in
    let s2 : Limiter = record s1 { in_flight = 0 } in
    let s3 : Limiter = record (let_in s2) { waiting = moment ∷ [] } in
    let s4 : Limiter = record (let_in s3) { waiting = moment ∷ moment ∷ [] } in
    let s5 : Limiter = record s4 { now = moment } in
    let s6 : Limiter = begin interval (record s5 { waiting = moment ∷ [] }) in
    let s7 : Limiter = begin interval (record s6 { waiting = [] }) in
    let r1 : Reachable interval max_concurrency s1 =
      next s0 s1 (start 0) (enter s0 (omega arith) (omega arith)) in
    let r2 : Reachable interval max_concurrency s2 =
      next s1 s2 r1 (finish s1 0 refl (omega arith)) in
    let r3 : Reachable interval max_concurrency s3 =
      next s2 s3 r2 (wait s2 (omega arith) (omega arith)) in
    let r4 : Reachable interval max_concurrency s4 =
      next s3 s4 r3 (wait s3 (omega arith) (omega arith)) in
    let r5 : Reachable interval max_concurrency s5 =
      next s4 s5 r4 (later s4 moment (omega arith)) in
    let r6 : Reachable interval max_concurrency s6 =
      next s5 s6 r5 (wake s5 [] (moment ∷ []) moment refl (omega arith)) in
    let r7 : Reachable interval max_concurrency s7 =
      next s6 s7 r6 (wake s6 [] [] moment refl (omega arith)) in
    (s7, moment, r7, refl)
