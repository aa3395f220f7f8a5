-- ===== src/Citations/Validator/Laws.antt =====
-- The verdict on a citation against the provisions that the corpus has for it.
use tore_legal_data_engine.Prelude.{
  String, Option, none, some, List, [], ◌∷◌, map, Bool, ◌≡◌, refl, arith, eq_iff,
}
use tore_legal_data_engine.Prelude.Int.{ℤ}
use tore_legal_data_engine.Prelude.Keys.{Distinct, Fresh, Fresh-nil_iff}
use tore_legal_data_engine.Domain.Enums.{valid, unresolved, conflict}
use tore_legal_data_engine.Domain.Entities.{CitationCandidate, CitationVerdict}
use tore_legal_data_engine.Domain.CitationStatus.{
  key, classify_citation_matches, refuse_if_not_valid,
}
use tore_legal_data_engine.Domain.CitationStatus.Laws.{classify_citation_matches_lem}
use tore_legal_data_engine.Citations.Lookup.{
  CitationLookup, CitationRow, row_key, distinct_rows, find_published_matches,
}
use tore_legal_data_engine.Citations.Validator.{match_key, lookup_for, verdict_on, verify_one}

-- The verdict gives no identifier away.
abbrev pub IsRefusal : CitationVerdict → Type 0
IsRefusal v = (v.node_id ≡ none) × (v.document_version_id ≡ none) × (v.locator ≡ none)

-- What the verdict on a list of provisions has to be.
abbrev pub IsVerdict : List CitationRow → CitationVerdict → Type 0
IsVerdict [] v = (v.status ≡ unresolved) × IsRefusal v
IsVerdict (r ∷ []) v =
    (v.status ≡ valid)
    × (v.node_id ≡ some r.citation.legal_node_id)
    × (v.document_version_id ≡ some r.citation.document_version_id)
    × (v.locator ≡ some r.citation.locator)
IsVerdict (r ∷ q ∷ rs) v = (v.status ≡ conflict) × IsRefusal v

module _ (contains_title : String → String → Bool) (parse_date : String → Option ℤ) where
  distinct_rows-Fresh :
      (l : CitationLookup) (seen : List String) (rs : List CitationRow)
      → Fresh seen (
          map
            (row_key contains_title parse_date)
            (distinct_rows contains_title parse_date l seen rs))
  unfolding distinct_rows
  distinct_rows-Fresh l seen [] = tt
  distinct_rows-Fresh l seen (r ∷ rs) = ground (
    arith,
    distinct_rows-Fresh l seen rs,
    distinct_rows-Fresh l (row_key contains_title parse_date r ∷ seen) rs,
  )

  verdict_on-IsVerdict :
      (c : CitationCandidate) (ms : List CitationRow)
      → Distinct (map (row_key contains_title parse_date) ms)
      → IsVerdict ms (verdict_on c ms)
  unfolding verdict_on refuse_if_not_valid
  verdict_on-IsVerdict c [] d = unfold classify_citation_matches in (refl, (refl, refl, refl))
  verdict_on-IsVerdict c (r ∷ []) d =
      let (none_found, (_, from), _) = classify_citation_matches_lem (match_key r) [] in
      rw (from tt) (refl, refl, refl, refl)
  verdict_on-IsVerdict c (r ∷ q ∷ rs) d =
      let (_, _, (_, from)) =
        classify_citation_matches_lem (match_key r) (map match_key (q ∷ rs)) in
      rw (from (λ a. ground (arith, eq_iff (key (match_key r)) (key (match_key q)))))
        (refl, (refl, refl, refl))

  -- The validator answers VALID, with the provision's identifiers, exactly when one provision is
  -- found for the candidate; UNRESOLVED when none is, CONFLICT when several are, and then without
  -- any identifier.
  pub verify_one-IsVerdict :
      (c : CitationCandidate) (rows : List CitationRow)
      → IsVerdict
          (find_published_matches contains_title parse_date (lookup_for c) rows)
          (verify_one (λ l. find_published_matches contains_title parse_date l rows) c)
  unfolding verify_one find_published_matches
  verify_one-IsVerdict c rows =
      verdict_on-IsVerdict c _ ((Fresh-nil_iff _).0 (distinct_rows-Fresh (lookup_for c) [] _))
