-- ===== src/Prelude/Result.antt =====
-- Exceptions as values: a `DomainError` with its code and message (src/domain/errors.ts).
use Prim.Native.String.{String}
use mathlib.Core.Path.{◌≡◌, refl}
use mathlib.Core.Logic.{◌⊎◌, inl, inr}
use mathlib.Core.Bool.{Bool, true, false}

pub record DomainError : Type 0 where
  pub code : String
  pub message : String

-- `new InvariantError(message)`
abbrev pub invariant_error : String → DomainError
invariant_error m = record { code = "invariant_violation"; message = m }

-- What a function returns, or the error that it throws.
pub data Result {ℓ} (T : Type ℓ) : Type ℓ where
  err : DomainError → Result T
  ok : T → Result T

infixl 5 ◌>>=◌ ◌>>◌
abbrev pub ◌>>=◌ {ℓ κ} : {A : Type ℓ} {B : Type κ} → Result A → (A → Result B) → Result B
err thrown >>= next = err thrown
ok value >>= next = next value

-- One check after the other.
abbrev pub ◌>>◌ {ℓ} : {B : Type ℓ} → Result (Unit {0}) → Result B → Result B
check >> rest = check >>= λ done. rest

-- `if (bad) throw new InvariantError(message)`
abbrev pub refuse_if : Bool → String → Result (Unit {0})
refuse_if true m = err (invariant_error m)
refuse_if false m = ok tt

-- Inversion of a bind that succeeds.
pub bind-eq-ok {κ ℓ} :
    {B : Type κ} {A : Type ℓ} {last : B} (m : Result A) (next : A → Result B)
    → (m >>= next) ≡ ok last
    → (first : A) × (m ≡ ok first) × (next first ≡ ok last)
bind-eq-ok (err thrown) f h = cc
bind-eq-ok (ok value) f h = (value, refl, h)

-- To split on an outcome and keep the equation.
pub Result-cases {ℓ} :
    {A : Type ℓ} (r : Result A) → ((a : A) × (r ≡ ok a)) ⊎ ((e : DomainError) × (r ≡ err e))
Result-cases (ok a) = inl (a, refl)
Result-cases (err e) = inr (e, refl)

abbrev pub is_ok {ℓ} : {A : Type ℓ} → Result A → Bool
is_ok (ok a) = true
is_ok (err e) = false
