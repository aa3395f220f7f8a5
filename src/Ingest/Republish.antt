-- ===== src/Ingest/Republish.antt =====
-- `republishFromArchive` of src/application/ingest/ingest-legalinfo.service.ts: archived bytes are parsed
-- and published again. The entry of an archived file holds its bytes; `loose` is what the storage has of
-- a file that no entry knows.
pub mod Gated
use tore_legal_data_engine.Prelude.{
  ℕ, ◌+◌, String, Option, none, some, List, [], ◌∷◌, ◌++◌, Bool, true, false, not, ◌&&◌, ◌||◌,
  if◌then◌else◌, eqb, or_else, or_opt, is_empty, ◌==◌,
}
use tore_legal_data_engine.Prelude.Int.{ℤ, pos, negsuc}
use tore_legal_data_engine.Prelude.Text.{◌<>◌}
use tore_legal_data_engine.Prelude.Result.{DomainError, Result, ok, err}
use tore_legal_data_engine.Regex.{Regex, at_start, at_end, seq, digit, plus, lit, test}
use tore_legal_data_engine.Domain.Enums.{IngestJobType}
use tore_legal_data_engine.Domain.Entities.{LegalDocument, ParseReview}
use tore_legal_data_engine.Publication.Confidence.{confidence_reasons}
use tore_legal_data_engine.Publication.Gate.{
  PublicationGateResult, passed, refused, assess_publication_gate, tree_of,
}
use tore_legal_data_engine.Corpus.Store.{
  Store, ArchiveEntry, Action, ◌>>=◌, ◌>>◌, pure, raise, lift, gets, after,
}
use tore_legal_data_engine.Corpus.Archive.{
  ArchiveMetadata, archive_store, archive_get, find_by_hash,
}
use tore_legal_data_engine.Corpus.Jobs.{create_job, mark_running}
use tore_legal_data_engine.Ingest.Request.{source_id, Published, PublishInput, ensure_source}
use tore_legal_data_engine.Ingest.Publish.{publish}
use tore_legal_data_engine.Ingest.Review.{retain_or_create_review}
use tore_legal_data_engine.Ingest.Shape.{ParseShape, parse_shape}
use tore_legal_data_engine.Ingest.One.{IngestItem, review, ready, done, code_error}
use tore_legal_data_engine.Ingest.Run.{RunResult, empty_result, count_item, settle}

pub record ExpectedShape : Type 0 where
  pub articles : ℤ
  pub paragraphs : ℤ
  pub clauses : ℤ
  pub nodes : ℤ

-- A count against the number that is expected, which may be negative.
abbrev is_count : ℕ → ℤ → Bool
is_count n (pos m) = eqb n m
is_count n (negsuc m) = false

-- `IngestCliOptions`, as far as this reads them.
pub record RepublishOptions : Type 0 where
  pub dry_run : Bool
  pub url : Option String
  pub law_id : Option String
  pub from_archive : Option String
  pub retrieved_at : Option String
  pub expected_shape : Option ExpectedShape

-- `/^legalinfo-html-v\d+$/`
abbrev parser_re : Regex
parser_re = seq at_start (seq (lit "legalinfo-html-v") (seq (plus digit) at_end))

-- `if (bad) throw …`; the message for people is left out
abbrev pub stop_if : Bool → String → Result (Unit {0})
stop_if true code = err (code_error code)
stop_if false code = ok tt

-- The parse against the shape that the command asks for.
unfoldable pub check_shape : Option ExpectedShape → ParseShape → Result (Unit {0})
check_shape none shape = ok tt
check_shape (some e) shape =
    stop_if
      (not (is_count shape.articles e.articles)
        || (not (is_count shape.paragraphs e.paragraphs)
            || (not (is_count shape.clauses e.clauses)
                || (not (is_count shape.nodes e.nodes) || not (eqb shape.duplicate_locators 0)))))
      "parse_shape_mismatch"

-- What is wrong with the shape itself.
unfoldable pub shape_reasons : ParseShape → List String
shape_reasons shape =
    (if eqb shape.duplicate_locators 0 then [] else "duplicate_locators" ∷ [])
    ++ (if is_empty shape.hierarchy_violations then [] else "broken_article_hierarchy" ∷ [])

-- The reasons for a review; none, where the document may be published.
unfoldable pub review_reasons :
    PublicationGateResult → List String → ParseShape → Option (List String)
unfolding shape_reasons
review_reasons (refused reasons) doubts shape = some reasons
review_reasons passed doubts shape =
    if not (is_empty doubts)
    then some doubts
    else if is_empty (shape_reasons shape)
    then none
    else some (shape_reasons shape)

abbrev pub law_page : Option String → Option String
law_page none = none
law_page (some id) = if id == "" then none else some ("https://legalinfo.mn/mn/detail?lawId=" <> id)

module _ (parse_date : String → Option ℤ) (uuid : ℕ → String) (parser_id now : String)
    (decode : List ℕ → String) (sha256 : List ℕ → String)
    (parse : String → List ℕ → String → String → Result LegalDocument)
    (law_id_from_url : String → Option String) where
  -- What is republished: the entry of the archive, its bytes and their hash.
  abbrev pub item_of : ArchiveEntry → String → IngestItem
  item_of entry hash = record {
    outcome = ready;
    hash = hash;
    archive_id = entry.archive_id;
    document_id = none;
    version_id = none;
    parse_review_id = none;
  }

  unfoldable pub review_again :
      RunResult → ArchiveEntry → String → LegalDocument → List String → Action RunResult
  review_again r entry hash parsed reasons = do
    saved ← retain_or_create_review uuid entry.original_url entry.archive_id parsed reasons
    pure (
        count_item r (record (item_of entry hash) {
          outcome = review;
          document_id = some saved.document_id;
          parse_review_id = some saved.id;
        }))

  abbrev pub input_again : ArchiveEntry → String → Option String → LegalDocument → PublishInput
  input_again entry hash law_id parsed = record {
    parsed = parsed;
    url = entry.original_url;
    hash = hash;
    archive_id = entry.archive_id;
    law_id = law_id;
    parser_id = parser_id;
    now = now;
  }

  unfoldable pub publish_again :
      RunResult → ArchiveEntry → String → Option String → LegalDocument → Action RunResult
  publish_again r entry hash law_id parsed = do
    p ← publish parse_date uuid (input_again entry hash law_id parsed)
    pure (
        count_item r (record (item_of entry hash) {
          outcome = done p.outcome;
          document_id = some p.document_id;
          version_id = some p.version_id;
          parse_review_id = p.parse_review_id;
        }))

  unfoldable pub conclude :
      Bool
      → RunResult
      → ArchiveEntry
      → String
      → Option String
      → LegalDocument
      → Option (List String)
      → Action RunResult
  conclude dry_run r entry hash law_id parsed (some reasons) =
      review_again r entry hash parsed reasons
  conclude dry_run r entry hash law_id parsed none =
      if dry_run
      then pure (count_item r (item_of entry hash))
      else publish_again r entry hash law_id parsed

  -- The body of the try.
  unfoldable pub republish_body :
      RepublishOptions → String → ArchiveEntry → List ℕ → RunResult → Action RunResult
  unfolding review_reasons check_shape
  republish_body options hash entry bytes r = do
    parsed ← lift (parse (decode bytes) bytes entry.original_url entry.mime_type)
    lift (stop_if (not (test parser_re parser_id)) "unexpected_parser")
    let law_id = or_opt (law_id_from_url entry.original_url) options.law_id
    lift (check_shape options.expected_shape (parse_shape (tree_of parsed)))
    conclude options.dry_run r entry hash law_id parsed (
        review_reasons (assess_publication_gate parsed hash (sha256 bytes) law_id)
          (confidence_reasons parsed) (parse_shape (tree_of parsed)))

  unfoldable pub republish_job :
      RepublishOptions → String → ArchiveEntry → List ℕ → String → Action RunResult
  unfolding republish_body
  republish_job options hash entry bytes job s =
      settle job (republish_body options hash entry bytes (empty_result options.dry_run job) s)

  module _ (loose : String → Option (List ℕ)) where
    -- `archive.get`
    unfoldable pub bytes_at : String → Store → Option (List ℕ)
    bytes_at hash s = or_opt (archive_get hash s) (loose hash)

    abbrev pub reindex_metadata : RepublishOptions → String → String → ArchiveMetadata
    reindex_metadata options url retrieved_at = record {
      original_url = url;
      retrieved_at = retrieved_at;
      mime_type = "text/html; charset=UTF-8";
      original_file_name = or_else options.law_id "legalinfo" <> ".html";
    }

    -- Bytes that no entry knows are archived again, under the URL and the time that were given.
    unfoldable pub reindex :
        RepublishOptions → List ℕ → Option String → Option String → Action ArchiveEntry
    reindex options bytes (some url) (some retrieved_at) s =
        if (url == "") || (retrieved_at == "")
        then (err (code_error "archive_metadata_missing"), s)
        else archive_store sha256 bytes (reindex_metadata options url retrieved_at) s
    reindex options bytes _ _ s = (err (code_error "archive_metadata_missing"), s)

    -- The entry, indexed anew where only the bytes are there.
    unfoldable pub indexed :
        RepublishOptions → String → Option ArchiveEntry → Option (List ℕ) → Action ArchiveEntry
    unfolding reindex
    indexed options hash (some entry) bytes s = (ok entry, s)
    indexed options hash none none s = (err (code_error ("archive_not_found:" <> hash)), s)
    indexed options hash none (some bytes) s =
        reindex options bytes (or_opt options.url (law_page options.law_id)) options.retrieved_at s

    abbrev pub differs : String → Option (List ℕ) → Bool
    differs hash none = false
    differs hash (some bytes) = not (sha256 bytes == hash)

    abbrev pub or_not_found : String → Option (List ℕ) → Result (List ℕ)
    or_not_found hash none = err (code_error ("archive_not_found:" <> hash))
    or_not_found hash (some bytes) = ok bytes

    unfoldable pub republish_hash : RepublishOptions → String → Action RunResult
    unfolding indexed bytes_at republish_job create_job mark_running
    republish_hash options hash = do
      ensure_source
      record_found ← gets (find_by_hash hash)
      found ← gets (bytes_at hash)
      lift (stop_if (differs hash found) "archive_hash_mismatch")
      entry ← indexed options hash record_found found
      again ← gets (bytes_at hash)
      bytes ← lift (or_not_found hash again)
      lift (stop_if (not (entry.sha256 == hash)) "archive_hash_mismatch")
      job ← create_job uuid source_id IngestJobType.parse (some entry.original_url)
      mark_running job
      republish_job options hash entry bytes job

    -- `republishFromArchive`
    unfoldable pub republish_from_archive : RepublishOptions → Option String → Action RunResult
    unfolding republish_hash
    republish_from_archive options none s = (err (code_error "from_archive_required"), s)
    republish_from_archive options (some hash) s =
        if hash == ""
        then (err (code_error "from_archive_required"), s)
        else republish_hash options hash s
