-- ===== src/Prelude/Keys.antt =====
-- Sets of texts (`Set<string>`) as lists, and lists of texts without repetition.
use Prim.Native.String.{String}
use mathlib.Core.Path.{◌≡◌, refl}
use mathlib.Core.Logic.{◌↔◌}
use mathlib.Core.Bool.{Bool, false, ◌||◌}
use mathlib.Core.List.{List, [], ◌∷◌, ◌++◌}
use native.Mathlib.Omega.{arith}
use text.Mathlib.Text.{◌==◌}
use text.Mathlib.TextEquality.{eq_iff}
use tore_legal_data_engine.Prelude.Tests.{if◌then◌else◌}

-- `set.has(k)`
abbrev pub has : String → List String → Bool
has k [] = false
has k (x ∷ xs) = x == k || has k xs

-- `[...new Set(xs)]`: the first occurrence of each text, in order.
unfoldable pub unique_from : List String → List String → List String
unique_from seen [] = []
unique_from seen (x ∷ xs) =
    let rest = unique_from (if has x seen then seen else x ∷ seen) xs in
    if has x seen then rest else x ∷ rest

unfoldable pub unique : List String → List String
unfolding unique_from
unique xs = unique_from [] xs

-- No text occurs twice.
abbrev pub Distinct : List String → Type 0
Distinct [] = Unit
Distinct (x ∷ xs) = (has x xs ≡ false) × Distinct xs

-- No text occurs twice, and none is in `seen`.
abbrev pub Fresh : List String → List String → Type 0
Fresh seen [] = Unit
Fresh seen (x ∷ xs) = (has x seen ≡ false) × Fresh (x ∷ seen) xs

-- No text of the list is in `seen`.
abbrev pub Apart : List String → List String → Type 0
Apart seen [] = Unit
Apart seen (x ∷ xs) = (has x seen ≡ false) × Apart seen xs

Apart-of_cons :
    (k : String) (seen xs : List String) → Apart (k ∷ seen) xs → (has k xs ≡ false) × Apart seen xs
Apart-of_cons k seen [] h = (refl, tt)
Apart-of_cons k seen (x ∷ xs) h =
    ground (arith, Apart-of_cons k seen xs h.1, eq_iff k x, eq_iff x k)

pub Apart-cons :
    (k : String) (seen xs : List String) → has k xs ≡ false → Apart seen xs → Apart (k ∷ seen) xs
Apart-cons k seen [] h a = tt
Apart-cons k seen (x ∷ xs) h a = ground (arith, Apart-cons k seen xs, eq_iff k x, eq_iff x k)

pub Fresh-Apart : (seen xs : List String) → Fresh seen xs ↔ (Distinct xs × Apart seen xs)
Fresh-Apart seen [] = (λ h. (tt, tt), λ h. tt)
Fresh-Apart seen (x ∷ xs) =
    let (to, from) = Fresh-Apart (x ∷ seen) xs in
    (
      λ h. let (d, a) = to h.1 in let (n, b) = Apart-of_cons x seen xs a in ((n, d), (h.0, b)),
      λ h. (h.1.0, from (h.0.1, Apart-cons x seen xs h.0.0 h.1.1)),
    )

pub Apart-nil : (xs : List String) → Apart [] xs
Apart-nil [] = tt
Apart-nil (x ∷ xs) = (refl, Apart-nil xs)

-- From an empty set, freshness is distinctness.
pub Fresh-nil_iff : (xs : List String) → Fresh [] xs ↔ Distinct xs
Fresh-nil_iff xs = (λ h. ((Fresh-Apart [] xs).0 h).0, λ d. (Fresh-Apart [] xs).1 (d, Apart-nil xs))

pub has-append : (k : String) (xs ys : List String) → has k (xs ++ ys) ≡ (has k xs || has k ys)
has-append k [] ys = refl
has-append k (x ∷ xs) ys = ground (arith, has-append k xs ys)

pub Apart-of_append :
    (seen xs ys : List String) → Apart seen (xs ++ ys) → Apart seen xs × Apart seen ys
Apart-of_append seen [] ys h = (tt, h)
Apart-of_append seen (x ∷ xs) ys (n, h) = let (a, b) = Apart-of_append seen xs ys h in ((n, a), b)

pub Distinct-of_append : (xs ys : List String) → Distinct (xs ++ ys) → Distinct xs × Distinct ys
Distinct-of_append [] ys h = (tt, h)
Distinct-of_append (x ∷ xs) ys (n, h) =
    let (a, b) = Distinct-of_append xs ys h in ((ground (arith, has-append x xs ys), a), b)

-- `set.delete(k)`
unfoldable pub without : String → List String → List String
without k [] = []
without k (x ∷ xs) = let rest = without k xs in if x == k then rest else x ∷ rest

pub without_of_apart : (k : String) (xs : List String) → has k xs ≡ false → without k xs ≡ xs
unfolding without
without_of_apart k [] h = refl
without_of_apart k (x ∷ xs) h = ground (arith, without_of_apart k xs)

pub unique-eq-nil : (xs : List String) → unique xs ≡ [] → xs ≡ []
unfolding unique
unique-eq-nil [] h = refl
unique-eq-nil (x ∷ xs) h = cc
