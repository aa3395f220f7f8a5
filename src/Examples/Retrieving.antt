-- ===== src/Examples/Retrieving.antt =====
-- A retrieval for an instant from a small corpus.
use tore_legal_data_engine.Prelude.{
  ℕ, ◌≤◌, String, none, some, List, [], ◌∷◌, true, ◌≡◌, ◌↔◌, refl, All, length, ◌==◌,
}
use tore_legal_data_engine.Domain.Enums.{VersionStatus}
use tore_legal_data_engine.Domain.Entities.{LegalNodeSearchCandidate}
use tore_legal_data_engine.Domain.Version.{version_covers_instant}
use tore_legal_data_engine.Corpus.Store.{Store}
use tore_legal_data_engine.Retrieval.{RetrieveRequest, Queries, retrieve, as_of_unavailable}
use tore_legal_data_engine.Retrieval.AsOf.{IsTimely, retrieve-as_of}
use tore_legal_data_engine.Retrieval.Corpus.{queries_of, queries_of-IsTimely}
use tore_legal_data_engine.Examples.Fixtures.{clock, first_article, version_at, law_of, empty_store}

abbrev corpus : Store
corpus = record empty_store {
  documents = law_of [] ∷ [];
  versions =
      version_at "v1" 1 (some "10") (some "20") VersionStatus.superseded
      ∷ version_at "v2" 2 (some "20") (some "30") VersionStatus.published
      ∷ [];
  nodes =
      record first_article { document_version_id = "v1"; parent_id = none }
      ∷ record first_article { id = "n2"; document_version_id = "v2"; parent_id = none }
      ∷ [];
}

abbrev no_search : Store → List VersionStatus → ℕ → String → List LegalNodeSearchCandidate
no_search s statuses limit question = []

abbrev tables : Queries
tables = queries_of (λ a b. a == b) clock no_search corpus

queries_of-IsTimely_example : IsTimely clock tables
queries_of-IsTimely_example = queries_of-IsTimely (λ a b. a == b) clock no_search corpus

abbrev request : RetrieveRequest
request = record {
  question = "";
  citations = [];
  as_of = some "15";
  document_id = some "d1";
  node_id = none;
  citation_key = none;
  locator = none;
}

retrieve-as_of_example :
    All
      (λ a. version_covers_instant clock a.effective_from a.effective_to "15" ≡ true)
      (retrieve clock tables request).authorities
    × (length (retrieve clock tables request).authorities ≤ 100)
    × (((retrieve clock tables request).status ≡ as_of_unavailable)
        ↔ ((retrieve clock tables request).authorities ≡ []))
retrieve-as_of_example =
    retrieve-as_of clock tables (queries_of-IsTimely (λ a b. a == b) clock no_search corpus) "15"
      refl request refl
