-- ===== src/Domain/OpenQuestion/Laws.antt =====
-- What is kept of the candidates: the best-ranked one of each provision that covers the instant.
use tore_legal_data_engine.Prelude.{
  String, Option, none, List, [], ◌∷◌, map, false, not, ◌&&◌, ◌≡◌, arith, All, eq_iff,
  if◌then◌else◌, ◌==◌, find_first,
}
use tore_legal_data_engine.Prelude.Int.{ℤ}
use tore_legal_data_engine.Prelude.Keys.{has, Distinct, Fresh, Fresh-nil_iff}
use tore_legal_data_engine.Domain.Entities.{LegalNodeSearchCandidate}
use tore_legal_data_engine.Domain.OpenQuestion.{
  provision, outside, dedupe_from, filter_and_dedupe_candidates,
}

module _ (parse_date : String → Option ℤ) (as_of : Option String) where
  dedupe_from-first :
      (k : String) (seen : List String) (cs : List LegalNodeSearchCandidate)
      → find_first (λ c. provision c == k) (dedupe_from parse_date as_of seen cs) ≡ (
          if has k seen
          then none
          else find_first (λ c. not (outside parse_date as_of c) && (provision c == k)) cs)
  unfolding dedupe_from
  dedupe_from-first k seen [] = ground arith
  dedupe_from-first k seen (c ∷ cs) = ground (
    arith,
    dedupe_from-first k seen cs,
    dedupe_from-first k (provision c ∷ seen) cs,
    eq_iff (provision c) k,
  )

  dedupe_from-Fresh :
      (seen : List String) (cs : List LegalNodeSearchCandidate)
      → Fresh seen (map provision (dedupe_from parse_date as_of seen cs))
  unfolding dedupe_from
  dedupe_from-Fresh seen [] = tt
  dedupe_from-Fresh seen (c ∷ cs) =
      ground (arith, dedupe_from-Fresh seen cs, dedupe_from-Fresh (provision c ∷ seen) cs)

  dedupe_from-inside :
      (seen : List String) (cs : List LegalNodeSearchCandidate)
      → All (λ c. outside parse_date as_of c ≡ false) (dedupe_from parse_date as_of seen cs)
  unfolding dedupe_from
  dedupe_from-inside seen [] = tt
  dedupe_from-inside seen (c ∷ cs) =
      ground (arith, dedupe_from-inside seen cs, dedupe_from-inside (provision c ∷ seen) cs)

  -- Of the candidates that are not outside the instant, each provision keeps its first, and nothing
  -- else is kept: no provision twice, and none outside.
  pub filter_and_dedupe_candidates_lem :
      (cs : List LegalNodeSearchCandidate)
      → ((k : String)
          → find_first (λ c. provision c == k) (filter_and_dedupe_candidates parse_date cs as_of)
            ≡ find_first (λ c. not (outside parse_date as_of c) && (provision c == k)) cs)
        × Distinct (map provision (filter_and_dedupe_candidates parse_date cs as_of))
        × All
            (λ c. outside parse_date as_of c ≡ false)
            (filter_and_dedupe_candidates parse_date cs as_of)
  unfolding filter_and_dedupe_candidates
  filter_and_dedupe_candidates_lem cs = (
    λ k. dedupe_from-first k [] cs,
    (Fresh-nil_iff _).0 (dedupe_from-Fresh [] cs),
    dedupe_from-inside [] cs,
  )
