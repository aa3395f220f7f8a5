-- ===== src/Citations/Validator.antt =====
-- src/application/citations: `CorpusCitationValidator` and `UnresolvedCitationValidator`.
-- `find` is the repository's `findPublishedMatches` over the rows of the corpus.
pub mod Laws
use tore_legal_data_engine.Prelude.{
  String, Option, none, some, List, [], ◌∷◌, map, Bool, true, false, if◌then◌else◌, truthy, or_opt,
  head?,
}
use tore_legal_data_engine.Domain.Enums.{CitationStatus, valid, unresolved, conflict}
use tore_legal_data_engine.Domain.Entities.{CitationCandidate, CitationVerdict}
use tore_legal_data_engine.Domain.CitationStatus.{
  MatchKey, classify_citation_matches, refuse_if_not_valid,
}
use tore_legal_data_engine.Citations.Query.{parse_exact_citation_query}
use tore_legal_data_engine.Citations.Lookup.{CitationLookup, CitationRow}

abbrev pub match_key : CitationRow → MatchKey
match_key r = record {
  document_version_id = r.citation.document_version_id;
  node_id = r.citation.legal_node_id;
}

abbrev pub node_of : Option CitationRow → Option String
node_of none = none
node_of (some r) = some r.citation.legal_node_id

abbrev pub version_of : Option CitationRow → Option String
version_of none = none
version_of (some r) = some r.citation.document_version_id

abbrev pub locator_of : Option CitationRow → Option String
locator_of none = none
locator_of (some r) = some r.citation.locator

unfoldable pub reasons_for : CitationStatus → Option String → List String
reasons_for unresolved as_of =
    if truthy as_of
    then "citation_unresolved" ∷ "as_of_unavailable" ∷ []
    else "citation_unresolved" ∷ []
reasons_for conflict as_of = "citation_conflict" ∷ []
reasons_for valid as_of = "citation_unique" ∷ []

-- The lookup that `verifyOne` makes.
unfoldable pub lookup_for : CitationCandidate → CitationLookup
lookup_for c =
    let parsed = parse_exact_citation_query c.query in
    record {
      query = c.query;
      node_id = c.node_id;
      document_id = c.document_id;
      locator = or_opt c.locator parsed.locator;
      citation_key = none;
      title_hint = parsed.title_hint;
      article = parsed.article;
      paragraph = parsed.paragraph;
      as_of = c.as_of;
    }

-- The verdict on the matches that were found.
unfoldable pub verdict_on : CitationCandidate → List CitationRow → CitationVerdict
verdict_on c matches =
    let status = classify_citation_matches (map match_key matches) in
    refuse_if_not_valid (record {
      query = c.query;
      status = status;
      node_id = node_of (head? matches);
      document_version_id = version_of (head? matches);
      locator = locator_of (head? matches);
      reasons = reasons_for status c.as_of;
    })

module _ (find : CitationLookup → List CitationRow) where
  unfoldable pub verify_one : CitationCandidate → CitationVerdict
  verify_one c = verdict_on c (find (lookup_for c))

  unfoldable pub verify : List CitationCandidate → List CitationVerdict
  verify candidates = map verify_one candidates

-- `UnresolvedCitationValidator.verify`
unfoldable pub verify_unresolved : List CitationCandidate → List CitationVerdict
verify_unresolved candidates =
    map
      (λ c. record {
        query = c.query;
        status = unresolved;
        node_id = none;
        document_version_id = none;
        locator = none;
        reasons = "citation_index_empty" ∷ [];
      })
      candidates
