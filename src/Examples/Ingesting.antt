-- ===== src/Examples/Ingesting.antt =====
-- One act is ingested, and one version is written.
use tore_legal_data_engine.Prelude.{
  ℕ, String, none, some, List, [], ◌∷◌, false, ◌≡◌, ◌⊎◌, refl, if◌then◌else◌, is_empty,
}
use tore_legal_data_engine.Prelude.Result.{Result, ok}
use tore_legal_data_engine.Domain.Enums.{VersionStatus, DocumentStatus, law}
use tore_legal_data_engine.Domain.Entities.{LegalDocument, nil, cons, legal_node}
use tore_legal_data_engine.Publication.Laws.{IsPublishable}
use tore_legal_data_engine.Corpus.Store.{Store}
use tore_legal_data_engine.Corpus.Persist.{PersistInput, persist}
use tore_legal_data_engine.Corpus.Persist.Guarded.{IsPersisted, persist-IsPersisted}
use tore_legal_data_engine.Ingest.One.{Downloaded, IngestItem, ingest_one}
use tore_legal_data_engine.Ingest.One.Archived.{IsArchived}
use tore_legal_data_engine.Ingest.One.Gated.{ingest_one-gated}
use tore_legal_data_engine.Examples.Fixtures.{
  clock, fresh, root, first_article, version_at, law_of, empty_store,
}

abbrev pub page : String → Result Downloaded
page url = ok (record {
  url = url;
  retrieved_url = url;
  retrieved_at = "10";
  mime_type = "text/html";
  bytes = 60 ∷ 104 ∷ [];
})

abbrev pub latin : List ℕ → String
latin bytes = if is_empty bytes then "" else "<h"

-- A stand-in for the hash.
abbrev pub digest : List ℕ → String
digest bytes = if is_empty bytes then "none" else "some"

abbrev pub read_law : String → List ℕ → String → String → Result LegalDocument
read_law html bytes url mime = ok (
    law_of (
      record (version_at "" 1 none none VersionStatus.published) {
        nodes = cons (legal_node root (cons (legal_node first_article nil) nil)) nil;
      }
      ∷ []))

abbrev pub address : String
address = "https://legalinfo.mn/mn/detail?lawId=1"

abbrev run : Result IngestItem × Store
run =
    ingest_one clock fresh "parser-1" "20" page latin digest read_law address (some "1") false
      "job-1" empty_store

ingest_one-gated_example :
    (run.1.versions ≡ [])
    ⊎ ((d : LegalDocument) × (got : Downloaded) × (bytes : List ℕ) × (page address ≡ ok got)
        × IsArchived digest empty_store got.bytes bytes
        × (read_law (latin bytes) bytes address got.mime_type ≡ ok d)
        × (IsPublishable d (digest bytes) (digest bytes) (some "1") × (false ≡ false)))
ingest_one-gated_example =
    ingest_one-gated clock fresh "parser-1" "20" page latin digest read_law address (some "1") false
      "job-1" empty_store run.1 run.0 refl

abbrev writing : PersistInput
writing = record {
  document = record {
    id = some "d1";
    source_id = "mn.legalinfo";
    document_type = law;
    title = "Эрүүгийн хууль";
    document_number = none;
    issuing_authority = "Улсын Их Хурал";
    jurisdiction = "MN";
    adopted_at = none;
    canonical_url = address;
    status = DocumentStatus.in_force;
  };
  version = record {
    id = some "v1";
    document_id = "d1";
    version_number = 1;
    effective_from = none;
    effective_to = none;
    content_hash = "hash";
    parser_id = "parser-1";
    status = VersionStatus.published;
    amendment_document_id = none;
    archive_record_id = "archive";
  };
  nodes = cons (legal_node root nil) nil;
}

persist-IsPersisted_example :
    IsPersisted clock fresh writing "d1" "v1" empty_store
      (persist clock fresh writing empty_store).0
      (persist clock fresh writing empty_store).1
persist-IsPersisted_example =
    persist-IsPersisted clock fresh writing "d1" "v1" empty_store
      (persist clock fresh writing empty_store).1 (persist clock fresh writing empty_store).0 refl
      refl refl refl refl refl
