-- ===== src/Ingest/One.antt =====
-- `ingestOne` of src/application/ingest/ingest-legalinfo.service.ts: one act from its download to its
-- publication. Of the item that is returned the fields for people to read are left out. The connector,
-- the parser, SHA-256 and the reading of UTF-8 are parameters.
pub mod Archived
pub mod Gated
use tore_legal_data_engine.Prelude.{
  ℕ, String, Option, none, some, List, [], ◌∷◌, ◌++◌, Bool, true, false, not, ◌&&◌, ◌||◌,
  if◌then◌else◌, is_empty, or_else, ◌==◌,
}
use tore_legal_data_engine.Prelude.Int.{ℤ}
use tore_legal_data_engine.Prelude.Text.{◌<>◌}
use tore_legal_data_engine.Prelude.Result.{DomainError, Result, ok, err}
use tore_legal_data_engine.Domain.Entities.{LegalDocument, ParseReview}
use tore_legal_data_engine.Domain.SourceDocument.{
  ContentKind, detect_format, validate_source_bytes, is_html,
}
use tore_legal_data_engine.Publication.Confidence.{confidence_reasons}
use tore_legal_data_engine.Publication.Gate.{
  PublicationGateResult, passed, refused, assess_publication_gate,
}
use tore_legal_data_engine.Corpus.Store.{
  Store, ArchiveEntry, Action, ◌>>=◌, ◌>>◌, pure, raise, lift, gets, after,
}
use tore_legal_data_engine.Corpus.Archive.{ArchiveMetadata, archive_store, archive_get}
use tore_legal_data_engine.Ingest.Request.{Outcome, Published, PublishInput, published, audit}
use tore_legal_data_engine.Ingest.Publish.{publish}
use tore_legal_data_engine.Ingest.Review.{patch_job, retain_or_create_review}

-- What the connector returns.
pub record Downloaded : Type 0 where
  pub url : String
  pub retrieved_url : String
  pub retrieved_at : String
  pub mime_type : String
  pub bytes : List ℕ

pub data ItemOutcome : Type 0 where
  review ready : ItemOutcome
  done : Outcome → ItemOutcome

pub record IngestItem : Type 0 where
  pub outcome : ItemOutcome
  pub hash : String
  pub archive_id : String
  pub document_id : Option String
  pub version_id : Option String
  pub parse_review_id : Option String

-- What is known of the file when its parse is judged.
pub record Judged : Type 0 where
  pub url : String
  pub law_id : Option String
  pub dry_run : Bool
  pub job : String
  pub hash : String
  pub archive_id : String
  pub parsed : LegalDocument

abbrev pub code_error : String → DomainError
code_error c = record { code = c; message = c }

abbrev pub stage_of : Outcome → String
stage_of published = "PUBLISHED"
stage_of Outcome.unchanged = "UNCHANGED"

abbrev pub with_default : String → String → String
with_default a b = if a == "" then b else a

module _ (parse_date : String → Option ℤ) (uuid : ℕ → String) (parser_id now : String) where
  abbrev pub publish_input : Judged → PublishInput
  publish_input j = record {
    parsed = j.parsed;
    url = j.url;
    hash = j.hash;
    archive_id = j.archive_id;
    law_id = j.law_id;
    parser_id = parser_id;
    now = now;
  }

  -- The branch of a document that may not be published.
  unfoldable pub send_to_review : Judged → List String → Action IngestItem
  send_to_review j reasons = do
    saved ← retain_or_create_review uuid j.url j.archive_id j.parsed reasons
    audit "ingest.review" "ParseReview" saved.id
    pure (record {
      outcome = review;
      hash = j.hash;
      archive_id = j.archive_id;
      document_id = some saved.document_id;
      version_id = none;
      parse_review_id = some saved.id;
    })

  unfoldable pub publish_item : Judged → Action IngestItem
  publish_item j = do
    p ← publish parse_date uuid (publish_input j)
    patch_job j.job (stage_of p.outcome)
    pure (record {
      outcome = done p.outcome;
      hash = j.hash;
      archive_id = j.archive_id;
      document_id = some p.document_id;
      version_id = some p.version_id;
      parse_review_id = p.parse_review_id;
    })

  unfoldable pub stop_before_publication : Judged → Action IngestItem
  stop_before_publication j = do
    audit "ingest.ready" "ArchiveRecord" j.archive_id
    pure (record {
      outcome = ready;
      hash = j.hash;
      archive_id = j.archive_id;
      document_id = none;
      version_id = none;
      parse_review_id = none;
    })

  -- What follows on the gate's result and the reasons against the parse.
  unfoldable pub act_on : Judged → PublicationGateResult → List String → Action IngestItem
  act_on j (refused reasons) doubts = send_to_review j reasons
  act_on j passed doubts =
      if not (is_empty doubts)
      then send_to_review j doubts
      else if j.dry_run
      then stop_before_publication j
      else publish_item j

  unfoldable pub judge : Judged → String → Action IngestItem
  judge j bytes_hash =
      act_on j (assess_publication_gate j.parsed j.hash bytes_hash j.law_id)
        (confidence_reasons j.parsed)

  module _ (download : String → Result Downloaded) (decode : List ℕ → String)
      (sha256 : List ℕ → String)
      (parse : String → List ℕ → String → String → Result LegalDocument) where
    -- The archived bytes, read back and compared.
    unfoldable pub read_back : String → Action (List ℕ)
    read_back hash s = elim (archive_get hash s) [
      | none ↦ (err (code_error "archive_hash_mismatch"), s)
      | some bytes ↦
          if sha256 bytes == hash
          then (ok bytes, s)
          else (err (code_error "archive_hash_mismatch"), s)
    ]

    abbrev pub metadata_of : Downloaded → Option String → ArchiveMetadata
    metadata_of d law_id = record {
      original_url = with_default d.retrieved_url d.url;
      retrieved_at = d.retrieved_at;
      mime_type = d.mime_type;
      original_file_name = or_else law_id "legalinfo" <> ".html";
    }

    -- The checks on a download before it is archived.
    unfoldable pub accept_download : Downloaded → Result (Unit {0})
    accept_download d =
        let format = detect_format decode d.mime_type d.bytes in
        elim (validate_source_bytes format d.bytes d.mime_type) [
          | err e ↦ err e
          | ok _ ↦
              if is_html format
              then ok tt
              else err (record {
                code = "unsupported_format";
                message = "html_required_for_authoritative_parse";
              })
        ]

    unfoldable pub ingest_one : String → Option String → Bool → String → Action IngestItem
    ingest_one url law_id dry_run job = do
      patch_job job "DOWNLOADING"
      downloaded ← lift (download url)
      lift (accept_download downloaded)
      patch_job job "ARCHIVED"
      stored ← archive_store sha256 downloaded.bytes (metadata_of downloaded law_id)
      archived ← read_back (sha256 downloaded.bytes)
      patch_job job "PARSING"
      parsed ← lift (parse (decode archived) archived url downloaded.mime_type)
      patch_job job "VALIDATING"
      judge
          (record {
            url = url;
            law_id = law_id;
            dry_run = dry_run;
            job = job;
            hash = sha256 downloaded.bytes;
            archive_id = stored.archive_id;
            parsed = parsed;
          })
          (sha256 archived)
