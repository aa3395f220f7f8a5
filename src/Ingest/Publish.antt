-- ===== src/Ingest/Publish.antt =====
-- `publish` of src/application/ingest/ingest-legalinfo.service.ts and the steps it makes in its
-- transaction. The metadata of audit records and reviews (JSON for people to read) is left out.
-- `now` is the time at which the transaction runs.
pub mod Superseding
pub mod OneLive
pub mod Untouched
pub mod Jobless
use tore_legal_data_engine.Prelude.{
  ℕ, ◌+◌, String, Option, none, some, List, [], ◌∷◌, ◌++◌, Bool, true, false, not, ◌&&◌, ◌||◌,
  if◌then◌else◌, eqb, max, length, keep, find_first, head?, or_opt, or_else, ◌==◌, map,
}
use tore_legal_data_engine.Prelude.Int.{ℤ}
use tore_legal_data_engine.Prelude.Text.{◌<>◌}
use tore_legal_data_engine.Prelude.Result.{Result, ok, err}
use tore_legal_data_engine.Domain.Enums.{
  VersionStatus, CitationStatus, DocumentStatus, ParseReviewStatus, document, same_type,
  is_published, is_pending,
}
use tore_legal_data_engine.Domain.Entities.{
  FlatNode, LegalNodes, LegalDocument, LegalDocumentVersion, CitationRecord, ParseReview,
}
use tore_legal_data_engine.Domain.Hierarchy.{flatten_legal_nodes}
use tore_legal_data_engine.Publication.Gate.{tree_of}
use tore_legal_data_engine.Corpus.Store.{Store, Action, ◌>>=◌, ◌>>◌, pure, gets, transaction, after}
use tore_legal_data_engine.Corpus.Repositories.{
  SaveDocument, SaveVersion, save_version, save_review, save_citation, log_audit, document_at_url,
  versions_of_document, version_with_content, reviews_of_document,
}
use tore_legal_data_engine.Corpus.Persist.{PersistResult, persist_with, text_or}
use tore_legal_data_engine.Ingest.Request.{
  source_id, actor, Outcome, published, unchanged, Published, PublishInput, citation_key_for_node,
  audit, ensure_source, prior_same_source, is_canonicalization, superseded, max_number, next_number,
  first_effective_from, document_input, version_input,
}

module _ (parse_date : String → Option ℤ) (uuid : ℕ → String) where
  -- The loop that supersedes the published versions.
  unfoldable pub supersede_all : Bool → String → List LegalDocumentVersion → Action (Unit {0})
  supersede_all canonicalization now [] = pure tt
  supersede_all canonicalization now (v ∷ vs) = do
    saved ← save_version parse_date uuid (superseded canonicalization now v)
    supersede_all canonicalization now vs

-- The citation of a node; the document node has none.
abbrev pub citation_of : PublishInput → String → FlatNode → CitationRecord
citation_of input version_id n = record {
  id = "";
  document_version_id = version_id;
  legal_node_id = n.id;
  citation_key = citation_key_for_node input.law_id n.source_locator;
  locator = n.source_locator;
  exact_text = n.text;
  source_url = input.url;
  content_hash = text_or n.content_hash input.hash;
  status = CitationStatus.valid;
}

module _ (uuid : ℕ → String) where
  unfoldable pub save_citations : PublishInput → String → List FlatNode → Action (Unit {0})
  save_citations input version_id [] = pure tt
  save_citations input version_id (n ∷ ns) =
      let rest = save_citations input version_id ns in
      if same_type n.node_type document
      then rest
      else save_citation uuid (citation_of input version_id n) >>= λ saved. rest

  unfoldable pub publish_citations : PublishInput → String → LegalNodes → Action (Unit {0})
  publish_citations input version_id nodes =
      save_citations input version_id (flatten_legal_nodes nodes)

  -- The loop of `acceptPendingReviews`; it returns the last review accepted.
  unfoldable pub accept_all : Option String → List ParseReview → Action (Option String)
  accept_all last [] = pure last
  accept_all last (r ∷ rs) = do
    saved ←
        save_review uuid (some r.id)
          (record r { status = ParseReviewStatus.accepted; reviewed_by = some actor })
    audit "ingest.review.accepted" "ParseReview" saved.id
    accept_all (some saved.id) rs

  unfoldable pub accept_pending_reviews : String → String → Action (Option String)
  accept_pending_reviews document_id archive_id = do
    reviews ← gets (reviews_of_document document_id)
    accept_all none (
        keep
          (λ r.
            is_pending r.status && ((r.archive_record_id == archive_id) || eqb (length reviews) 1))
          reviews)

module _ (parse_date : String → Option ℤ) (uuid : ℕ → String) where
  -- What both branches do after the version is saved; `entity` names the audit record's subject.
  unfoldable pub finish :
      PublishInput → String → (PersistResult → Action (Unit {0})) → PersistResult → Action Published
  finish input document_id record_audit saved = do
    publish_citations uuid input saved.version.id saved.nodes
    record_audit saved
    review ← accept_pending_reviews uuid document_id input.archive_id
    pure (record {
      outcome = published;
      document_id = document_id;
      version_id = saved.version.id;
      parse_review_id = review;
    })

  -- A new version of a document that is known.
  unfoldable pub publish_next : PublishInput → LegalDocument → Action Published
  unfolding finish
  publish_next input existing = do
    versions ← gets (versions_of_document existing.id)
    let canonicalization = is_canonicalization input versions
    supersede_all parse_date uuid canonicalization input.now
        (keep (λ v. is_published v.status) versions)
    saved ← persist_with parse_date uuid (record {
      document = document_input input (some existing.id);
      version =
          version_input input existing.id (next_number versions)
            (if canonicalization then none else first_effective_from input.parsed);
      nodes = tree_of input.parsed;
    })
    finish input existing.id
        (λ p.
          audit
            (if canonicalization then "ingest.canonicalization_published" else "ingest.published")
            "LegalDocumentVersion" p.version.id)
        saved

  -- The first version of a new document.
  unfoldable pub publish_first : PublishInput → Action Published
  unfolding finish
  publish_first input = do
    saved ← persist_with parse_date uuid (record {
      document = document_input input none;
      version = version_input input "" 1 (first_effective_from input.parsed);
      nodes = tree_of input.parsed;
    })
    finish input saved.document.id (λ p. audit "ingest.published" "LegalDocument" p.document.id)
        saved

  unfoldable pub report_unchanged : LegalDocument → LegalDocumentVersion → Action Published
  report_unchanged existing same = do
    audit "ingest.unchanged" "LegalDocument" existing.id
    pure (record {
      outcome = unchanged;
      document_id = existing.id;
      version_id = same.id;
      parse_review_id = none;
    })

  -- A document that is known: unless its bytes were published with this parser before, there is a
  -- new version.
  unfoldable pub publish_known :
      PublishInput → LegalDocument → Option LegalDocumentVersion → Action Published
  publish_known input existing none = publish_next input existing
  publish_known input existing (some same) = report_unchanged existing same

  unfoldable pub publish_found : PublishInput → Option LegalDocument → Action Published
  unfolding publish_known
  publish_found input none s = publish_first input s
  publish_found input (some existing) s =
      publish_known input existing (version_with_content existing.id input.hash input.parser_id s) s

  -- The body of the transaction.
  unfoldable pub publish_body : PublishInput → Action Published
  unfolding publish_found
  publish_body input s = publish_found input (document_at_url source_id input.url s) s

  -- `publish`
  unfoldable pub publish : PublishInput → Action Published
  publish input = ensure_source >> transaction (publish_body input)
