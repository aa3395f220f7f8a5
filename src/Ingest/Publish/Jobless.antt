-- ===== src/Ingest/Publish/Jobless.antt =====
-- Publishing writes no job.
use tore_legal_data_engine.Prelude.{
  ℕ, String, Option, none, some, List, [], ◌∷◌, Bool, true, ◌≡◌, refl, Bool-cases, inl, inr, ◌==◌,
  ◌&&◌, ◌||◌, eqb, keep, length, or_else, if◌then◌else◌, sym, ap,
}
use tore_legal_data_engine.Prelude.Int.{ℤ}
use tore_legal_data_engine.Prelude.Result.{Result}
use tore_legal_data_engine.Domain.Enums.{
  ParseReviewStatus, document, same_type, is_published, is_pending,
}
use tore_legal_data_engine.Domain.Entities.{
  FlatNode, LegalDocument, LegalDocumentVersion, ParseReview,
}
use tore_legal_data_engine.Domain.Hierarchy.{flatten_legal_nodes}
use tore_legal_data_engine.Domain.Version.{assert_document_version}
use tore_legal_data_engine.Publication.Gate.{tree_of}
use tore_legal_data_engine.Corpus.Store.{Store, ◌>>=◌, pure}
use tore_legal_data_engine.Corpus.Jobs.Leaving.{
  Leaves, SameJobs, leaving-bind, leaving-lift, Leaves-of_runs, left, transaction-Leaves,
}
use tore_legal_data_engine.Corpus.Repositories.{
  SaveDocument, SaveVersion, save_version, save_document, save_review, save_citation, id_or_fresh,
  document_at_url, versions_of_document, version_with_content, reviews_of_document, replace_nodes,
  version_row, non_empty,
}
use tore_legal_data_engine.Corpus.Persist.{
  PersistInput, PersistResult, persist_with, check_input, checked_version,
}
use tore_legal_data_engine.Ingest.Request.{
  source_id, actor, PublishInput, is_canonicalization, superseded, next_number,
  first_effective_from, document_input, version_input, ensure_source, audit,
}
use tore_legal_data_engine.Ingest.Publish.{
  supersede_all, save_citations, publish_citations, accept_all, accept_pending_reviews, finish,
  publish_next, publish_first, report_unchanged, publish_body, publish, publish_known,
  publish_found,
}

module _ (uuid : ℕ → String) where
  id_or_fresh-Leaves : (given : Option String) → Leaves (id_or_fresh uuid given)
  unfolding id_or_fresh
  id_or_fresh-Leaves none s = refl
  id_or_fresh-Leaves (some id) s = refl

  pub save_document-Leaves : (input : SaveDocument) → Leaves (save_document uuid input)
  unfolding save_document
  save_document-Leaves input = Leaves-of_runs (save_document uuid input) (λ s t r h.
      leaving-bind (id_or_fresh uuid (non_empty input.id)) _ s t r h
        (id_or_fresh-Leaves (non_empty input.id)) (λ a u k. sym (ap (λ o. o.1.jobs) k)))

  pub save_review-Leaves :
      (given : Option String) (input : ParseReview) → Leaves (save_review uuid given input)
  unfolding save_review
  save_review-Leaves given input = Leaves-of_runs (save_review uuid given input) (λ s t r h.
      leaving-bind (id_or_fresh uuid (non_empty given)) _ s t r h
        (id_or_fresh-Leaves (non_empty given)) (λ a u k. sym (ap (λ o. o.1.jobs) k)))

  save_citations-Leaves :
      (input : PublishInput) (v : String) (ns : List FlatNode)
      → Leaves (save_citations uuid input v ns)
  unfolding save_citations save_citation id_or_fresh
  save_citations-Leaves input v [] s = refl
  save_citations-Leaves input v (n ∷ ns) s = elim (Bool-cases (same_type n.node_type document)) [
    | inl d ↦ rw d (save_citations-Leaves input v ns s)
    | inr d ↦ rw d (save_citations-Leaves input v ns _)
  ]

  accept_all-Leaves :
      (last : Option String) (rs : List ParseReview) → Leaves (accept_all uuid last rs)
  unfolding accept_all
  accept_all-Leaves last [] = λ s. refl
  accept_all-Leaves last (r ∷ rs) = Leaves-of_runs (accept_all uuid last (r ∷ rs)) (λ s t o h.
      leaving-bind
        (save_review uuid (some r.id)
          (record r { status = ParseReviewStatus.accepted; reviewed_by = some actor }))
        _ s t o h
        (save_review-Leaves (some r.id)
          (record r { status = ParseReviewStatus.accepted; reviewed_by = some actor }))
        (λ a u k.
          leaving-bind (audit "ingest.review.accepted" "ParseReview" a.id) _ u t o k (λ s. refl)
            (λ b v l.
              left (accept_all uuid (some a.id) rs) v t o (accept_all-Leaves (some a.id) rs) l)))

module _ (parse_date : String → Option ℤ) (uuid : ℕ → String) where
  save_version-Leaves : (input : SaveVersion) → Leaves (save_version parse_date uuid input)
  unfolding save_version
  save_version-Leaves input = Leaves-of_runs (save_version parse_date uuid input) (λ s t r h.
      leaving-lift
        (assert_document_version parse_date (version_row (or_else input.id "pending") input)) _ s t
        r h
        (λ a k.
          leaving-bind (id_or_fresh uuid (non_empty input.id)) _ s t r k
            (id_or_fresh-Leaves uuid (non_empty input.id)) (λ b u l. sym (ap (λ o. o.1.jobs) l))))

  supersede_all-Leaves :
      (c : Bool) (now : String) (vs : List LegalDocumentVersion)
      → Leaves (supersede_all parse_date uuid c now vs)
  unfolding supersede_all
  supersede_all-Leaves c now [] = λ s. refl
  supersede_all-Leaves c now (v ∷ vs) =
      Leaves-of_runs (supersede_all parse_date uuid c now (v ∷ vs)) (λ s t r h.
        leaving-bind (save_version parse_date uuid (superseded c now v)) _ s t r h
          (save_version-Leaves (superseded c now v))
          (λ a u k.
            left (supersede_all parse_date uuid c now vs) u t r (supersede_all-Leaves c now vs) k))

  persist_with-Leaves : (input : PersistInput) → Leaves (persist_with parse_date uuid input)
  unfolding persist_with replace_nodes
  persist_with-Leaves input = Leaves-of_runs (persist_with parse_date uuid input) (λ s t r h.
      leaving-bind (id_or_fresh uuid input.document.id) _ s t r h
        (id_or_fresh-Leaves uuid input.document.id)
        (λ d s1 h1.
          leaving-bind (id_or_fresh uuid input.version.id) _ s1 t r h1
            (id_or_fresh-Leaves uuid input.version.id)
            (λ v s2 h2.
              leaving-lift
                (check_input parse_date uuid (checked_version d v input.version) input.nodes s2) _
                s2 t r h2
                (λ u h3.
                  leaving-bind (save_document uuid (record input.document { id = some d })) _ s2 t r
                    h3 (save_document-Leaves uuid (record input.document { id = some d }))
                    (λ e s4 h4. saved v e s4 t r h4)))))
    where
      saved :
          (v : String) (e : LegalDocument) (s t : Store) (r : Result PersistResult)
          → (do
            version ←
                save_version parse_date uuid
                  (record input.version { id = some v; document_id = e.id })
            nodes ← replace_nodes version.id input.nodes
            pure (record { document = e; version = version; nodes = nodes }))
              s
            ≡ (r, t)
          → SameJobs t s
      saved v e s t r h =
          leaving-bind
            (save_version parse_date uuid
              (record input.version { id = some v; document_id = e.id }))
            _ s t r h
            (save_version-Leaves (record input.version { id = some v; document_id = e.id }))
            (λ w u k. sym (ap (λ o. o.1.jobs) k))

  finish-Leaves :
      (input : PublishInput) (owner : String) (action entity : String)
      (id_of : PersistResult → String) (saved : PersistResult)
      → Leaves (finish parse_date uuid input owner (λ p. audit action entity (id_of p)) saved)
  unfolding finish publish_citations accept_pending_reviews
  finish-Leaves input owner action entity id_of saved =
      Leaves-of_runs (finish parse_date uuid input owner (λ p. audit action entity (id_of p)) saved)
        (λ s t r h.
          leaving-bind (publish_citations uuid input saved.version.id saved.nodes) _ s t r h
            (save_citations-Leaves uuid input saved.version.id (flatten_legal_nodes saved.nodes))
            (λ a s1 h1.
              let s2 = (audit action entity (id_of saved) s1).1 in
              leaving-bind (accept_pending_reviews uuid owner input.archive_id) _ s2 t r h1
                (λ s.
                  accept_all-Leaves uuid none
                    (keep
                      (λ r.
                        is_pending r.status
                        && ((r.archive_record_id == input.archive_id)
                            || eqb (length (reviews_of_document owner s)) 1))
                      (reviews_of_document owner s))
                    s)
                (λ c s3 h3. sym (ap (λ o. o.1.jobs) h3))))

  publish_next-Leaves :
      (input : PublishInput) (existing : LegalDocument)
      → Leaves (publish_next parse_date uuid input existing)
  unfolding publish_next
  publish_next-Leaves input existing =
      Leaves-of_runs (publish_next parse_date uuid input existing) (λ s t r h.
        let versions = versions_of_document existing.id s in
        let c = is_canonicalization input versions in
        let live = keep (λ v. is_published v.status) versions in
        let row : PersistInput = record {
          document = document_input input (some existing.id);
          version =
              version_input input existing.id (next_number versions)
                (if c then none else first_effective_from input.parsed);
          nodes = tree_of input.parsed;
        } in
        leaving-bind (supersede_all parse_date uuid c input.now live) _ s t r h
          (supersede_all-Leaves c input.now live)
          (λ a s1 h1.
            leaving-bind (persist_with parse_date uuid row) _ s1 t r h1 (persist_with-Leaves row)
              (λ p s2 h2.
                let action =
                  if c then "ingest.canonicalization_published" else "ingest.published" in
                left
                  (finish parse_date uuid input existing.id
                    (λ p. audit action "LegalDocumentVersion" p.version.id) p)
                  s2 t r
                  (finish-Leaves input existing.id action "LegalDocumentVersion" (λ p. p.version.id)
                    p)
                  h2)))

  publish_first-Leaves : (input : PublishInput) → Leaves (publish_first parse_date uuid input)
  unfolding publish_first
  publish_first-Leaves input =
      let row : PersistInput = record {
        document = document_input input none;
        version = version_input input "" 1 (first_effective_from input.parsed);
        nodes = tree_of input.parsed;
      } in
      Leaves-of_runs (publish_first parse_date uuid input) (λ s t r h.
        leaving-bind (persist_with parse_date uuid row) _ s t r h (persist_with-Leaves row)
          (λ p s2 h2.
            left
              (finish parse_date uuid input p.document.id
                (λ p. audit "ingest.published" "LegalDocument" p.document.id) p)
              s2 t r
              (finish-Leaves input p.document.id "ingest.published" "LegalDocument"
                (λ p. p.document.id) p)
              h2))

  publish_known-Leaves :
      (input : PublishInput) (existing : LegalDocument) (same : Option LegalDocumentVersion)
      → Leaves (publish_known parse_date uuid input existing same)
  unfolding publish_known report_unchanged
  publish_known-Leaves input existing none = publish_next-Leaves input existing
  publish_known-Leaves input existing (some same) = λ s. refl

  publish_found-Leaves :
      (input : PublishInput) (existing : Option LegalDocument)
      → Leaves (publish_found parse_date uuid input existing)
  unfolding publish_found
  publish_found-Leaves input none s = publish_first-Leaves input s
  publish_found-Leaves input (some existing) s =
      publish_known-Leaves input existing
        (version_with_content existing.id input.hash input.parser_id s) s

  publish_body-Leaves : (input : PublishInput) → Leaves (publish_body parse_date uuid input)
  unfolding publish_body
  publish_body-Leaves input s = publish_found-Leaves input (document_at_url source_id input.url s) s

  pub publish-Leaves : (input : PublishInput) → Leaves (publish parse_date uuid input)
  unfolding publish ensure_source
  publish-Leaves input s =
      transaction-Leaves (publish_body parse_date uuid input) (publish_body-Leaves input)
        (record s { source_known = true })
