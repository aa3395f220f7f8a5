-- ===== src/Prelude/Pigeon.antt =====
-- Distinct texts that all occur in a list are no more than its entries.
use Prim.Native.Nat.{◌≤◌, ◌<◌}
use Prim.Native.String.{String}
use mathlib.Core.Path.{◌≡◌}
use mathlib.Core.Bool.{true, false}
use mathlib.Core.List.{List, [], ◌∷◌}
use native.Mathlib.Omega.{arith}
use text.Mathlib.Text.{◌==◌}
use text.Mathlib.TextEquality.{eq_iff}
use tore_legal_data_engine.Prelude.Lists.{length, All}
use tore_legal_data_engine.Prelude.Keys.{has, Distinct, without}

length-without_all : (k : String) (xs : List String) → length (without k xs) ≤ length xs
unfolding without
length-without_all k [] = omega arith
length-without_all k (x ∷ xs) = ground (arith, length-without_all k xs)

length-without :
    (k : String) (xs : List String) → has k xs ≡ true → length (without k xs) < length xs
unfolding without
length-without k [] h = absurd (cc)
length-without k (x ∷ xs) h = ground (arith, length-without k xs, length-without_all k xs)

has-without :
    (j k : String) (xs : List String)
    → j == k ≡ false
    → has j xs ≡ true
    → has j (without k xs) ≡ true
unfolding without
has-without j k [] n h = h
has-without j k (x ∷ xs) n h =
    ground (arith, has-without j k xs n, eq_iff x j, eq_iff x k, eq_iff j k)

All-without :
    (k : String) (xs ks : List String)
    → has k xs ≡ false
    → All (λ x. has x ks ≡ true) xs
    → All (λ x. has x (without k ks) ≡ true) xs
All-without k [] ks n h = tt
All-without k (x ∷ xs) ks n h =
    (has-without x k ks (ground arith) h.0, All-without k xs ks (ground arith) h.1)

pub length-Distinct :
    (xs ks : List String) → Distinct xs → All (λ x. has x ks ≡ true) xs → length xs ≤ length ks
length-Distinct [] ks d h = omega arith
length-Distinct (x ∷ xs) ks (n, d) (h, hs) =
    omega
      (arith, length-Distinct xs (without x ks) d (All-without x xs ks n hs), length-without x ks h)
