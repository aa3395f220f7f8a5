-- ===== src/Examples/Citing.antt =====
-- Citations on concrete phrases and rows.
use tore_legal_data_engine.Prelude.{String, none, some, [], ◌∷◌, ◌≡◌, ◌↔◌, refl, All, ◌==◌}
use tore_legal_data_engine.Prelude.Text.{trim, collapse_spaces}
use tore_legal_data_engine.Domain.Enums.{VersionStatus, CitationStatus, unresolved, valid, conflict}
use tore_legal_data_engine.Domain.Entities.{CitationCandidate}
use tore_legal_data_engine.Domain.CitationStatus.{MatchKey, key, classify_citation_matches}
use tore_legal_data_engine.Domain.CitationStatus.Laws.{classify_citation_matches_lem}
use tore_legal_data_engine.Citations.Query.{parse_exact_citation_query}
use tore_legal_data_engine.Citations.Query.Title.{title_hint-none}
use tore_legal_data_engine.Citations.Lookup.{CitationRow, find_published_matches}
use tore_legal_data_engine.Citations.Validator.{lookup_for, verify_one}
use tore_legal_data_engine.Citations.Validator.Laws.{IsVerdict, verify_one-IsVerdict}
use tore_legal_data_engine.Examples.Fixtures.{clock, first_article, version_at, law_of}

abbrev here : MatchKey
here = record { document_version_id = "v1"; node_id = "n1" }

abbrev there : MatchKey
there = record { document_version_id = "v1"; node_id = "n2" }

classify_citation_matches_lem_example :
    (classify_citation_matches [] ≡ unresolved)
    × ((classify_citation_matches (here ∷ there ∷ []) ≡ valid)
        ↔ All (λ n. key n ≡ key here) (there ∷ []))
    × ((classify_citation_matches (here ∷ there ∷ []) ≡ conflict)
        ↔ ¬ All (λ n. key n ≡ key here) (there ∷ []))
classify_citation_matches_lem_example = classify_citation_matches_lem here (there ∷ [])

abbrev phrase : String
phrase = "Эрүүгийн хуулийн 17.1 дүгээр зүйл"

title_hint-none_example : (parse_exact_citation_query phrase).title_hint ≡ none
unfolding trim collapse_spaces
title_hint-none_example = title_hint-none phrase refl

abbrev row_of : String → CitationRow
row_of id = record {
  citation = record {
    id = id;
    document_version_id = "v1";
    legal_node_id = "n1";
    citation_key = "1:art-1";
    locator = "art-1";
    exact_text = "Зорилт";
    source_url = "https://legalinfo.mn/mn/detail?lawId=1";
    content_hash = "h-n1";
    status = CitationStatus.valid;
  };
  node = first_article;
  version = version_at "v1" 1 (some "10") none VersionStatus.published;
  document = law_of [];
}

abbrev cited : CitationCandidate
cited = record { query = "art-1"; node_id = none; document_id = none; locator = none; as_of = none }

verify_one-IsVerdict_example :
    IsVerdict
      (find_published_matches
        (λ a b. a == b)
        clock
        (lookup_for cited)
        (row_of "c1" ∷ row_of "c2" ∷ []))
      (verify_one
        (λ l. find_published_matches (λ a b. a == b) clock l (row_of "c1" ∷ row_of "c2" ∷ []))
        cited)
verify_one-IsVerdict_example =
    verify_one-IsVerdict (λ a b. a == b) clock cited (row_of "c1" ∷ row_of "c2" ∷ [])
