-- ===== src/Ingest/Run/Leaving.antt =====
-- Ingesting an act writes no job: of the jobs it only reads whether one is known.
use tore_legal_data_engine.Prelude.{
  ℕ, String, Option, none, some, List, Bool, true, ◌≡◌, refl, arith, sym, ap, is_empty, Bool-cases,
  find_first, ◌==◌, inl, inr, ◌&&◌, ◌∙◌,
}
use tore_legal_data_engine.Prelude.Int.{ℤ}
use tore_legal_data_engine.Prelude.Result.{Result}
use tore_legal_data_engine.Domain.Enums.{is_pending}
use tore_legal_data_engine.Domain.Entities.{LegalDocument, ParseReview}
use tore_legal_data_engine.Publication.Gate.{PublicationGateResult, passed, refused}
use tore_legal_data_engine.Corpus.Store.{Store, ◌>>=◌, ◌>>◌, lift}
use tore_legal_data_engine.Corpus.Jobs.Leaving.{
  Leaves, SameJobs, leaving-bind, leaving-lift, Leaves-of_runs, left,
}
use tore_legal_data_engine.Corpus.Archive.{ArchiveMetadata, archive_store}
use tore_legal_data_engine.Corpus.Repositories.{document_at_url, reviews_of_document}
use tore_legal_data_engine.Ingest.Request.{source_id, ensure_source}
use tore_legal_data_engine.Ingest.Publish.{publish}
use tore_legal_data_engine.Ingest.Publish.Jobless.{
  publish-Leaves, save_document-Leaves, save_review-Leaves,
}
use tore_legal_data_engine.Ingest.Review.{
  patch_job, is_known, placeholder_document, or_save, or_placeholder, save_pending,
  retain_or_create_review, placeholder,
}
use tore_legal_data_engine.Ingest.One.{
  Judged, IngestItem, Downloaded, send_to_review, stop_before_publication, publish_item, act_on,
  judge, read_back, metadata_of, accept_download, ingest_one, publish_input, stage_of,
}

patch_job-Leaves : (job stage : String) → Leaves (patch_job job stage)
unfolding patch_job
patch_job-Leaves job stage s = elim (Bool-cases (is_known (find_first (λ j. j.id == job) s.jobs))) [
  | inl e ↦ rw e refl
  | inr e ↦ rw e refl
]

module _ (uuid : ℕ → String) where
  or_save-Leaves :
      (url : String) (d : LegalDocument) (o : Option LegalDocument) → Leaves (or_save uuid url d o)
  or_save-Leaves url d none = save_document-Leaves uuid (placeholder uuid url d)
  or_save-Leaves url d (some e) = λ s. refl

  or_placeholder-Leaves :
      (url : String) (d : LegalDocument) (o : Option LegalDocument)
      → Leaves (or_placeholder uuid url d o)
  unfolding placeholder_document ensure_source
  or_placeholder-Leaves url d none s =
      or_save-Leaves url d (document_at_url source_id url (record s { source_known = true }))
        (record s { source_known = true })
  or_placeholder-Leaves url d (some e) s = refl

  save_pending-Leaves :
      (owner archive : String) (reasons : List String) (o : Option ParseReview)
      → Leaves (save_pending uuid owner archive reasons o)
  save_pending-Leaves owner archive reasons none s = save_review-Leaves uuid none _ s
  save_pending-Leaves owner archive reasons (some r) s = save_review-Leaves uuid (some r.id) _ s

  retain_or_create_review-Leaves :
      (url archive : String) (d : LegalDocument) (reasons : List String)
      → Leaves (retain_or_create_review uuid url archive d reasons)
  unfolding retain_or_create_review
  retain_or_create_review-Leaves url archive d reasons =
      Leaves-of_runs (retain_or_create_review uuid url archive d reasons) (λ s t r h.
        leaving-bind (or_placeholder uuid url d (document_at_url source_id url s)) _ s t r h
          (or_placeholder-Leaves url d (document_at_url source_id url s))
          (λ e u k.
            left
              (save_pending uuid e.id archive reasons (
                find_first (λ r. is_pending r.status && (r.archive_record_id == archive))
                  (reviews_of_document e.id u)))
              u t r
              (save_pending-Leaves e.id archive reasons (
                find_first (λ r. is_pending r.status && (r.archive_record_id == archive))
                  (reviews_of_document e.id u)))
              k))

send_to_review-Leaves :
    (uuid : ℕ → String) (parse_date : String → Option ℤ) (parser_id now : String) (j : Judged)
    (reasons : List String)
    → Leaves (send_to_review parse_date uuid parser_id now j reasons)
unfolding send_to_review
send_to_review-Leaves uuid parse_date parser_id now j reasons =
    Leaves-of_runs (send_to_review parse_date uuid parser_id now j reasons) (λ s t r h.
      leaving-bind (retain_or_create_review uuid j.url j.archive_id j.parsed reasons) _ s t r h
        (retain_or_create_review-Leaves uuid j.url j.archive_id j.parsed reasons)
        (λ e u k. sym (ap (λ o. o.1.jobs) k)))

module _ (parse_date : String → Option ℤ) (uuid : ℕ → String) (parser_id now : String) where
  publish_item-Leaves : (j : Judged) → Leaves (publish_item parse_date uuid parser_id now j)
  unfolding publish_item
  publish_item-Leaves j =
      let input = publish_input parse_date uuid parser_id now j in
      Leaves-of_runs (publish_item parse_date uuid parser_id now j) (λ s t r h.
        leaving-bind (publish parse_date uuid input) _ s t r h
          (publish-Leaves parse_date uuid input)
          (λ p u k.
            leaving-bind (patch_job j.job (stage_of p.outcome)) _ u t r k
              (patch_job-Leaves j.job (stage_of p.outcome)) (λ a v l. sym (ap (λ o. o.1.jobs) l))))

  act_on-Leaves :
      (j : Judged) (g : PublicationGateResult) (doubts : List String)
      → Leaves (act_on parse_date uuid parser_id now j g doubts)
  unfolding act_on stop_before_publication publish_item
  act_on-Leaves j (refused reasons) doubts s =
      send_to_review-Leaves uuid parse_date parser_id now j reasons s
  act_on-Leaves j passed doubts s = elim (Bool-cases (is_empty doubts)) [
    | inr e ↦ rw e (send_to_review-Leaves uuid parse_date parser_id now j doubts s)
    | inl e ↦ elim (Bool-cases j.dry_run) [
      | inl d ↦ rw (e, d) refl
      | inr d ↦ rw (e, d) (publish_item-Leaves j s)
    ]
  ]

  module _ (download : String → Result Downloaded) (decode : List ℕ → String)
      (sha256 : List ℕ → String)
      (parse : String → List ℕ → String → String → Result LegalDocument) where
    archive_store-Leaves :
        (bytes : List ℕ) (m : ArchiveMetadata) → Leaves (archive_store sha256 bytes m)
    unfolding archive_store
    archive_store-Leaves bytes m s = ground arith

    read_back-Leaves :
        (hash : String)
        → Leaves (read_back parse_date uuid parser_id now download decode sha256 parse hash)
    unfolding read_back
    read_back-Leaves hash s = ground arith

    pub ingest_one-Leaves :
        (url : String) (law_id : Option String) (dry_run : Bool) (job : String)
        → Leaves (
            ingest_one parse_date uuid parser_id now download decode sha256 parse url law_id dry_run
              job)
    unfolding ingest_one judge
    ingest_one-Leaves url law_id dry_run job =
        Leaves-of_runs
          (ingest_one parse_date uuid parser_id now download decode sha256 parse url law_id dry_run
            job)
          (λ s t r h.
            leaving-bind (patch_job job "DOWNLOADING") _ s t r h
              (patch_job-Leaves job "DOWNLOADING")
              (λ a s1 h1. leaving-lift (download url) _ s1 t r h1 (λ d h2.
                leaving-lift
                  (accept_download parse_date uuid parser_id now download decode sha256 parse d) _
                  s1 t r h2
                  (λ b h3.
                    leaving-bind (patch_job job "ARCHIVED") _ s1 t r h3
                      (patch_job-Leaves job "ARCHIVED") (λ c s4 h4. archived d s4 t r h4)))))
      where
        archived :
            (d : Downloaded) (s t : Store) (r : Result IngestItem)
            → (do
              stored ←
                  archive_store sha256 d.bytes (
                    metadata_of parse_date uuid parser_id now download decode sha256 parse d law_id)
              bytes ←
                  read_back parse_date uuid parser_id now download decode sha256 parse
                    (sha256 d.bytes)
              patch_job job "PARSING"
              parsed ← lift (parse (decode bytes) bytes url d.mime_type)
              patch_job job "VALIDATING"
              judge parse_date uuid parser_id now
                  (record {
                    url = url;
                    law_id = law_id;
                    dry_run = dry_run;
                    job = job;
                    hash = sha256 d.bytes;
                    archive_id = stored.archive_id;
                    parsed = parsed;
                  })
                  (sha256 bytes))
                s
              ≡ (r, t)
            → SameJobs t s
        archived d s t r h =
            leaving-bind
              (archive_store sha256 d.bytes
                (metadata_of parse_date uuid parser_id now download decode sha256 parse d law_id))
              _ s t r h (archive_store-Leaves d.bytes _)
              (λ stored s1 h1.
                leaving-bind
                  (read_back parse_date uuid parser_id now download decode sha256 parse
                    (sha256 d.bytes))
                  _ s1 t r h1 (read_back-Leaves (sha256 d.bytes))
                  (λ bytes s2 h2.
                    leaving-bind (patch_job job "PARSING") _ s2 t r h2
                      (patch_job-Leaves job "PARSING")
                      (λ a s3 h3.
                        leaving-lift (parse (decode bytes) bytes url d.mime_type) _ s3 t r h3
                          (λ parsed h4.
                            leaving-bind (patch_job job "VALIDATING") _ s3 t r h4
                              (patch_job-Leaves job "VALIDATING")
                              (λ b s5 h5. judged parsed bytes stored.archive_id s5 t r h5)))))
          where
            judged :
                (parsed : LegalDocument) (bytes : List ℕ) (archive_id : String) (s t : Store)
                (r : Result IngestItem)
                → judge parse_date uuid parser_id now
                    (record {
                      url = url;
                      law_id = law_id;
                      dry_run = dry_run;
                      job = job;
                      hash = sha256 d.bytes;
                      archive_id = archive_id;
                      parsed = parsed;
                    })
                    (sha256 bytes)
                    s
                  ≡ (r, t)
                → SameJobs t s
            judged parsed bytes archive_id s t r h =
                sym (ap (λ o. o.1.jobs) h) ∙ act_on-Leaves _ _ _ s
