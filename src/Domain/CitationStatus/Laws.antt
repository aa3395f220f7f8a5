-- ===== src/Domain/CitationStatus/Laws.antt =====
-- A citation is valid exactly when its matches name one provision.
use tore_legal_data_engine.Prelude.{
  String, List, [], ◌∷◌, map, ◌≡◌, ◌↔◌, refl, arith, eqb, length, All, eq_iff, Bool-cases, inl, inr,
}
use tore_legal_data_engine.Prelude.Keys.{unique_from}
use tore_legal_data_engine.Domain.Enums.{valid, unresolved, conflict}
use tore_legal_data_engine.Domain.CitationStatus.{MatchKey, key, classify_citation_matches}

unique_from_all_iff :
    (x : String) (ms : List MatchKey)
    → (length (unique_from (x ∷ []) (map key ms)) ≡ 0) ↔ All (λ m. key m ≡ x) ms
unfolding unique_from
unique_from_all_iff x [] = (λ h. tt, λ h. refl)
unique_from_all_iff x (m ∷ ms) =
    let (to, from) = unique_from_all_iff x ms in
    (
      λ h. (ground (arith, eq_iff x (key m)), to (ground (arith, eq_iff x (key m)))),
      λ h. ground (arith, eq_iff x (key m), from h.1),
    )

-- With at least one match the status is VALID exactly when all matches have the key of the first,
-- and CONFLICT otherwise; with no match it is UNRESOLVED.
pub classify_citation_matches_lem :
    (m : MatchKey) (ms : List MatchKey)
    → (classify_citation_matches [] ≡ unresolved)
      × ((classify_citation_matches (m ∷ ms) ≡ valid) ↔ All (λ n. key n ≡ key m) ms)
      × ((classify_citation_matches (m ∷ ms) ≡ conflict) ↔ ¬ All (λ n. key n ≡ key m) ms)
unfolding classify_citation_matches unique_from
classify_citation_matches_lem m ms =
    let (to, from) = unique_from_all_iff (key m) ms in
    (
      refl,
      (λ h. to (ground arith), λ h. ground (arith, from h)),
      (
        λ h a. ground (arith, from a),
        λ n. elim (Bool-cases (eqb (length (unique_from (key m ∷ []) (map key ms))) 0)) [
          | inl all ↦ absurd (n (to (ground arith)))
          | inr other ↦ ground arith
        ],
      ),
    )
