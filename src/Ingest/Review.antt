-- ===== src/Ingest/Review.antt =====
-- `placeholderDocument`, `patchJob` and `retainOrCreateReview` of
-- src/application/ingest/ingest-legalinfo.service.ts. The payload of a review is left out.
use tore_legal_data_engine.Prelude.{
  ℕ, String, Option, none, some, List, Bool, true, false, ◌&&◌, if◌then◌else◌, find_first, ◌==◌,
}
use tore_legal_data_engine.Prelude.Text.{◌<>◌, join}
use tore_legal_data_engine.Prelude.Result.{ok}
use tore_legal_data_engine.Domain.Enums.{DocumentStatus, ParseReviewStatus, is_pending}
use tore_legal_data_engine.Domain.Entities.{LegalDocument, ParseReview, IngestJob}
use tore_legal_data_engine.Corpus.Store.{Action, ◌>>=◌, ◌>>◌, pure, gets}
use tore_legal_data_engine.Corpus.Repositories.{
  SaveDocument, save_document, save_review, document_at_url, reviews_of_document,
}
use tore_legal_data_engine.Corpus.Persist.{text_or}
use tore_legal_data_engine.Ingest.Request.{source_id, actor, audit, ensure_source}

abbrev pub is_known : Option IngestJob → Bool
is_known none = false
is_known (some j) = true

-- `patchJob`: the stage of a known job goes to the audit log.
unfoldable pub patch_job : String → String → Action (Unit {0})
patch_job job stage s =
    if is_known (find_first (λ j. j.id == job) s.jobs)
    then audit ("ingest.stage." <> stage) "IngestJob" job s
    else (ok tt, s)

module _ (uuid : ℕ → String) where
  abbrev pub placeholder : String → LegalDocument → SaveDocument
  placeholder url parsed = record {
    id = none;
    source_id = source_id;
    document_type = parsed.document_type;
    title = text_or parsed.title url;
    document_number = none;
    issuing_authority = parsed.issuing_authority;
    jurisdiction = "MN";
    adopted_at = parsed.adopted_at;
    canonical_url = url;
    status = DocumentStatus.draft;
  }

  abbrev pub or_save : String → LegalDocument → Option LegalDocument → Action LegalDocument
  or_save url parsed (some d) = pure d
  or_save url parsed none = save_document uuid (placeholder url parsed)

  unfoldable pub placeholder_document : String → LegalDocument → Action LegalDocument
  placeholder_document url parsed = do
    ensure_source
    existing ← gets (document_at_url source_id url)
    or_save url parsed existing

  abbrev pub or_placeholder : String → LegalDocument → Option LegalDocument → Action LegalDocument
  or_placeholder url parsed (some d) = pure d
  or_placeholder url parsed none = placeholder_document url parsed

  -- A pending review of the same archived bytes is kept, otherwise one is created.
  abbrev pub save_pending : String → String → List String → Option ParseReview → Action ParseReview
  save_pending document_id archive_id reasons (some pending) =
      save_review uuid (some pending.id) (record pending {
        status = ParseReviewStatus.pending;
        reason = join "," reasons;
        reviewed_by = some actor;
      })
  save_pending document_id archive_id reasons none = save_review uuid none (record {
    id = "";
    document_id = document_id;
    archive_record_id = archive_id;
    status = ParseReviewStatus.pending;
    reason = join "," reasons;
    reviewed_by = some actor;
  })

  unfoldable pub retain_or_create_review :
      String → String → LegalDocument → List String → Action ParseReview
  unfolding join
  retain_or_create_review url archive_id parsed reasons = do
    existing ← gets (document_at_url source_id url)
    document ← or_placeholder url parsed existing
    reviews ← gets (reviews_of_document document.id)
    save_pending document.id archive_id reasons
        (find_first (λ r. is_pending r.status && (r.archive_record_id == archive_id)) reviews)
