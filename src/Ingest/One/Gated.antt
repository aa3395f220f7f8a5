-- ===== src/Ingest/One/Gated.antt =====
-- Ingestion writes versions only of documents that passed the gate.
use tore_legal_data_engine.Prelude.{
  ℕ, String, Option, none, some, List, Bool, false, ◌&&◌, ◌≡◌, ◌⊎◌, inl, inr, refl, arith, sym, ap,
  subst, is_empty, Bool-cases, find_first, ◌==◌,
}
use tore_legal_data_engine.Prelude.Int.{ℤ}
use tore_legal_data_engine.Prelude.Result.{Result, ok}
use tore_legal_data_engine.Domain.Enums.{is_pending}
use tore_legal_data_engine.Domain.Entities.{LegalDocument, ParseReview}
use tore_legal_data_engine.Publication.Confidence.{confidence_reasons}
use tore_legal_data_engine.Publication.Gate.{
  PublicationGateResult, passed, refused, assess_publication_gate,
}
use tore_legal_data_engine.Publication.Laws.{IsPublishable, gate_passed-IsPublishable}
use tore_legal_data_engine.Corpus.Store.{Store}
use tore_legal_data_engine.Corpus.Keeping.{
  Keeps, Same, bind-run, bind-step, bind-lift, Keeps-of_runs, Same-of_sum, kept,
}
use tore_legal_data_engine.Corpus.Archive.{ArchiveMetadata, archive_store}
use tore_legal_data_engine.Corpus.Repositories.{
  save_document, save_review, id_or_fresh, document_at_url, reviews_of_document,
}
use tore_legal_data_engine.Ingest.Request.{source_id, ensure_source}
use tore_legal_data_engine.Ingest.Review.{
  patch_job, is_known, placeholder_document, or_save, or_placeholder, save_pending,
  retain_or_create_review,
}
use tore_legal_data_engine.Ingest.One.Archived.{IsArchived, archived}
use tore_legal_data_engine.Ingest.One.{
  Judged, IngestItem, Downloaded, send_to_review, stop_before_publication, act_on, judge, read_back,
  metadata_of, accept_download, ingest_one,
}

patch_job-Keeps : (job stage : String) → Keeps (patch_job job stage)
unfolding patch_job
patch_job-Keeps job stage s = elim (Bool-cases (is_known (find_first (λ j. j.id == job) s.jobs))) [
  | inl e ↦ rw e refl
  | inr e ↦ rw e refl
]

module _ (uuid : ℕ → String) where
  or_save-Keeps :
      (url : String) (d : LegalDocument) (o : Option LegalDocument) → Keeps (or_save uuid url d o)
  unfolding save_document id_or_fresh
  or_save-Keeps url d none s = refl
  or_save-Keeps url d (some e) s = refl

  or_placeholder-Keeps :
      (url : String) (d : LegalDocument) (o : Option LegalDocument)
      → Keeps (or_placeholder uuid url d o)
  unfolding placeholder_document ensure_source
  or_placeholder-Keeps url d none s = or_save-Keeps url d _ _
  or_placeholder-Keeps url d (some e) s = refl

  save_pending-Keeps :
      (document archive : String) (reasons : List String) (o : Option ParseReview)
      → Keeps (save_pending uuid document archive reasons o)
  unfolding save_review id_or_fresh
  save_pending-Keeps document archive reasons none s = refl
  save_pending-Keeps document archive reasons (some r) s = elim (Bool-cases (r.id == "")) [
    | inl e ↦ rw e refl
    | inr e ↦ rw e refl
  ]

  pub retain_or_create_review-Keeps :
      (url archive : String) (d : LegalDocument) (reasons : List String)
      → Keeps (retain_or_create_review uuid url archive d reasons)
  unfolding retain_or_create_review
  retain_or_create_review-Keeps url archive d reasons =
      Keeps-of_runs (retain_or_create_review uuid url archive d reasons) (λ s t r h.
        Same-of_sum t s (
          bind-step ⊥ (or_placeholder uuid url d (document_at_url source_id url s)) _ s t r h
            (or_placeholder-Keeps url d (document_at_url source_id url s))
            (λ e u k. inl (
              kept
                (save_pending uuid e.id archive reasons (
                  find_first (λ r. is_pending r.status && (r.archive_record_id == archive))
                    (reviews_of_document e.id u)))
                u t r (save_pending-Keeps e.id archive reasons _) k))))

send_to_review-Keeps :
    (uuid : ℕ → String) (parse_date : String → Option ℤ) (parser_id now : String) (j : Judged)
    (reasons : List String)
    → Keeps (send_to_review parse_date uuid parser_id now j reasons)
unfolding send_to_review
send_to_review-Keeps uuid parse_date parser_id now j reasons =
    Keeps-of_runs (send_to_review parse_date uuid parser_id now j reasons) (λ s t r h.
      Same-of_sum t s (
        bind-step ⊥ (retain_or_create_review uuid j.url j.archive_id j.parsed reasons) _ s t r h
          (retain_or_create_review-Keeps uuid j.url j.archive_id j.parsed reasons)
          (λ e u k. inl (sym (ap (λ o. o.1.versions) k)))))

module _ (parse_date : String → Option ℤ) (uuid : ℕ → String) (parser_id now : String) where
  -- The publication is allowed.
  abbrev Allowed : LegalDocument → String → Option String → Bool → Type 0
  Allowed d bytes_hash law_id dry_run =
      IsPublishable d bytes_hash bytes_hash law_id × (dry_run ≡ false)

  act_on-allowed :
      (P : Type 0) (j : Judged) (g : PublicationGateResult) (doubts : List String) (s : Store)
      → (g ≡ passed → j.dry_run ≡ false → P)
      → Same (act_on parse_date uuid parser_id now j g doubts s).1 s ⊎ P
  unfolding act_on
  act_on-allowed P j (refused reasons) doubts s f =
      inl (send_to_review-Keeps uuid parse_date parser_id now j reasons s)
  act_on-allowed P j passed doubts s f = elim (Bool-cases (is_empty doubts)) [
    | inr e ↦ rw e (inl (send_to_review-Keeps uuid parse_date parser_id now j doubts s))
    | inl e ↦ elim (Bool-cases j.dry_run) [
      | inl d ↦ rw (e, d) (inl (unfold stop_before_publication in refl))
      | inr d ↦ inr (f refl d)
    ]
  ]

  judge-Allowed :
      (j : Judged) (bytes_hash : String) (s : Store)
      → Same (judge parse_date uuid parser_id now j bytes_hash s).1 s
        ⊎ Allowed j.parsed bytes_hash j.law_id j.dry_run
  unfolding judge
  judge-Allowed j bytes_hash s =
      act_on-allowed _ j (assess_publication_gate j.parsed j.hash bytes_hash j.law_id)
        (confidence_reasons j.parsed) s
        (λ e d.
          let p = gate_passed-IsPublishable j.parsed j.hash bytes_hash j.law_id e in
          (subst (λ h. IsPublishable j.parsed h bytes_hash j.law_id) p.same_bytes p, d))

  module _ (download : String → Result Downloaded) (decode : List ℕ → String)
      (sha256 : List ℕ → String)
      (parse : String → List ℕ → String → String → Result LegalDocument) where
    archive_store-Keeps :
        (bytes : List ℕ) (m : ArchiveMetadata) → Keeps (archive_store sha256 bytes m)
    unfolding archive_store
    archive_store-Keeps bytes m s = ground arith

    read_back-Keeps :
        (hash : String)
        → Keeps (read_back parse_date uuid parser_id now download decode sha256 parse hash)
    unfolding read_back
    read_back-Keeps hash s = ground arith

    -- A document that was parsed for the act from bytes that the archive holds for what was downloaded,
    -- and that may be published with their hash.
    abbrev Approved : String → Option String → Bool → Store → Type 0
    Approved url law_id dry_run s =
        (d : LegalDocument) × (got : Downloaded) × (bytes : List ℕ) × (download url ≡ ok got)
        × IsArchived sha256 s got.bytes bytes
        × (parse (decode bytes) bytes url got.mime_type ≡ ok d)
        × Allowed d (sha256 bytes) law_id dry_run

    approve :
        (url : String) (got : Downloaded) (bytes : List ℕ) (j : Judged) (start s t : Store)
        (r : Result IngestItem)
        → download url ≡ ok got
        → IsArchived sha256 start got.bytes bytes
        → parse (decode bytes) bytes url got.mime_type ≡ ok j.parsed
        → judge parse_date uuid parser_id now j (sha256 bytes) s ≡ (r, t)
        → Same t s ⊎ Approved url j.law_id j.dry_run start
    approve url got bytes j start s t r fetched archived read h = go (
        subst (λ o. Same o.1 s ⊎ Allowed j.parsed (sha256 bytes) j.law_id j.dry_run) h
          (judge-Allowed j (sha256 bytes) s))
      where
        go :
            Same t s ⊎ Allowed j.parsed (sha256 bytes) j.law_id j.dry_run
            → Same t s ⊎ Approved url j.law_id j.dry_run start
        go (inl e) = inl e
        go (inr p) = inr (j.parsed, got, bytes, fetched, archived, read, p)

    -- Whatever comes of ingesting an act, errors included, the table of versions is as before, unless
    -- it was no dry run and a document is publishable that was parsed for the act from the archived
    -- bytes. These have the hash of the bytes that were downloaded, and are what the archive held
    -- under that hash, or the downloaded bytes themselves where it held nothing.
    pub ingest_one-gated :
        (url : String) (law_id : Option String) (dry_run : Bool) (job : String) (s t : Store)
        (r : Result IngestItem)
        → ingest_one parse_date uuid parser_id now download decode sha256 parse url law_id dry_run
            job s
          ≡ (r, t)
        → Same t s ⊎ Approved url law_id dry_run s
    unfolding ingest_one
    ingest_one-gated url law_id dry_run job s t r h =
        let Q = Approved url law_id dry_run s in
        let meta = λ (d : Downloaded).
          metadata_of parse_date uuid parser_id now download decode sha256 parse d law_id in
        let back = λ (d : Downloaded).
          read_back parse_date uuid parser_id now download decode sha256 parse (sha256 d.bytes) in
        bind-run Q (patch_job job "DOWNLOADING") _ s t r h (patch_job-Keeps job "DOWNLOADING")
          (λ a s1 q1 h1. bind-lift Q (download url) _ s1 t r h1 (λ d got h2.
            bind-lift Q
              (accept_download parse_date uuid parser_id now download decode sha256 parse d) _ s1 t
              r h2
              (λ a good h3.
                bind-run Q (patch_job job "ARCHIVED") _ s1 t r h3 (patch_job-Keeps job "ARCHIVED")
                  (λ a s4 q4 h4.
                    bind-run Q (archive_store sha256 d.bytes (meta d)) _ s4 t r h4
                      (archive_store-Keeps d.bytes _)
                      (λ stored s5 q5 h5.
                        bind-run Q (back d) _ s5 t r h5 (read_back-Keeps (sha256 d.bytes))
                          (λ bytes s6 q6 h6.
                            let held =
                              archived parse_date uuid parser_id now download decode sha256 parse
                                job (meta d) d.bytes bytes stored s s1 s4 s5 s6 q1 q4 q5 q6 in
                            bind-step Q (patch_job job "PARSING") _ s6 t r h6
                              (patch_job-Keeps job "PARSING")
                              (λ a s7 h7.
                                bind-lift Q (parse (decode bytes) bytes url d.mime_type) _ s7 t r h7
                                  (λ parsed read h8.
                                    bind-step Q (patch_job job "VALIDATING") _ s7 t r h8
                                      (patch_job-Keeps job "VALIDATING")
                                      (λ a s9 h9.
                                        approve url d bytes _ s s9 t r got held read h9)))))))))
