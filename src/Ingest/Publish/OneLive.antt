-- ===== src/Ingest/Publish/OneLive.antt =====
-- After `publish` writes a new version of a known document, that version is the document's only
-- published one.
use tore_legal_data_engine.Prelude.{
  ℕ, ◌≤◌, ◌<◌, All-mono, String, Option, none, List, [], ◌∷◌, ◌++◌, Bool, true, false, ◌&&◌, ◌||◌,
  ◌≡◌, refl, arith, All, keep, eq_iff, eq_refl, ◌==◌, if◌then◌else◌, sym, ◌∙◌, Bool-cases, inl, inr,
}
use tore_legal_data_engine.Prelude.Int.{ℤ}
use tore_legal_data_engine.Prelude.Keys.{has, Distinct}
use tore_legal_data_engine.Prelude.Result.{ok}
use tore_legal_data_engine.Domain.Enums.{is_published}
use tore_legal_data_engine.Domain.Entities.{LegalDocument, LegalDocumentVersion}
use tore_legal_data_engine.Corpus.Store.{Store, bind-eq-ok}
use tore_legal_data_engine.Corpus.Repositories.{
  versions_of_document, by_number, insert_version, version_row,
}
use tore_legal_data_engine.Corpus.Persist.{PersistResult, persist_with}
use tore_legal_data_engine.Corpus.Persist.Effect.{persist_versions}
use tore_legal_data_engine.Corpus.Tables.{
  Rows, ids, put_absent, is_live, LiveIn, keep_of_LiveIn, keep-append,
}
use tore_legal_data_engine.Ingest.Request.{
  PublishInput, Published, is_canonicalization, version_input, first_effective_from, next_number,
  audit,
}
use tore_legal_data_engine.Ingest.Publish.{
  publish_next, finish, supersede_all, publish_citations, accept_pending_reviews,
}
use tore_legal_data_engine.Ingest.Publish.Superseding.{supersede_all-Cleared}
use tore_legal_data_engine.Ingest.Publish.Untouched.{
  publish_citations-versions, accept_pending_reviews-versions,
}

-- Sorting by number keeps the identifiers.
has-insert_version :
    (k : String) (v : LegalDocumentVersion) (vs : Rows)
    → has k (ids (insert_version v vs)) ≡ (v.id == k || has k (ids vs))
unfolding insert_version
has-insert_version k v [] = refl
has-insert_version k v (w ∷ ws) = ground (arith, has-insert_version k v ws)

abbrev doc_live : String → Rows → Rows
doc_live d rows =
    keep (λ v. is_published v.status) (by_number (keep (λ v. v.document_id == d) rows))

has-keep_insert :
    (k : String) (v : LegalDocumentVersion) (vs : Rows)
    → has k (ids (keep (λ w. is_published w.status) (insert_version v vs)))
      ≡ ((is_published v.status && v.id == k) || has k (ids (keep (λ w. is_published w.status) vs)))
unfolding insert_version
has-keep_insert k v [] = ground arith
has-keep_insert k v (w ∷ ws) = ground (arith, has-keep_insert k v ws)

-- Every published row of the document is among those that are superseded.
has-doc_live :
    (d k : String) (rows : Rows)
    → has k (ids (doc_live d rows)) ≡ has k (ids (keep (is_live d) rows))
unfolding by_number
has-doc_live d k [] = refl
has-doc_live d k (v ∷ rows) = elim (Bool-cases (v.document_id == d)) [
  | inl e ↦ rw e (
      has-keep_insert k v (by_number (keep (λ v. v.document_id == d) rows))
      ∙ ground (arith, has-doc_live d k rows))
  | inr e ↦ rw e (has-doc_live d k rows)
]

LiveIn-more :
    (d k : String) (ks : List String) (rows : Rows) → LiveIn d ks rows → LiveIn d (k ∷ ks) rows
LiveIn-more d k ks [] l = tt
LiveIn-more d k ks (v ∷ rows) l = ground (arith, LiveIn-more d k ks rows)

LiveIn-keep : (d : String) (rows : Rows) → LiveIn d (ids (keep (is_live d) rows)) rows
LiveIn-keep d [] = tt
LiveIn-keep d (v ∷ rows) = ground (
  arith,
  eq_refl v.id,
  eq_iff v.id v.id,
  LiveIn-keep d rows,
  LiveIn-more d v.id (ids (keep (is_live d) rows)) rows,
)

LiveIn-ext :
    (d : String) (ks ls : List String) (rows : Rows)
    → ((k : String) → has k ks ≡ has k ls)
    → LiveIn d ks rows
    → LiveIn d ls rows
LiveIn-ext d ks ls [] e l = tt
LiveIn-ext d ks ls (v ∷ rows) e l = (rw (← e v.id) l.0, LiveIn-ext d ks ls rows e l.1)

-- What is assumed of the versions table: identifiers are distinct and not empty, and the next
-- identifier that is drawn is new.
pub record IsConsistent (uuid : ℕ → String) (s : Store) : Type 0 where
  pub distinct : Distinct (ids s.versions)
  pub named : All (λ v. (v.id == "") ≡ false) s.versions
  pub fresh : has (uuid s.next) (ids s.versions) ≡ false
  pub fresh_named : (uuid s.next == "") ≡ false

module _ (P : LegalDocumentVersion → Type 0) where
  All-insert : (v : LegalDocumentVersion) (vs : Rows) → P v → All P vs → All P (insert_version v vs)
  unfolding insert_version
  All-insert v [] p h = (p, tt)
  All-insert v (w ∷ ws) p h = ground (arith, All-insert v ws p)

  All-by_number : (vs : Rows) → All P vs → All P (by_number vs)
  unfolding by_number
  All-by_number [] h = tt
  All-by_number (v ∷ vs) (p, h) = All-insert v (by_number vs) p (All-by_number vs h)

  All-kept : (q : LegalDocumentVersion → Bool) (vs : Rows) → All P vs → All P (keep q vs)
  All-kept q [] h = tt
  All-kept q (v ∷ vs) h = ground (arith, All-kept q vs)

All-has :
    (big : List String) (rows : Rows)
    → ((k : String) → has k (ids rows) ≡ true → has k big ≡ true)
    → All (λ v. (v.id == "") ≡ false) rows
    → All (λ v. ((v.id == "") ≡ false) × (has v.id big ≡ true)) rows
All-has big [] f n = tt
All-has big (v ∷ rows) f (n, ns) =
    ((n, f v.id (rw (eq_refl v.id) refl)), All-has big rows (λ k h. f k (rw h (ground arith))) ns)

All-below_weaken :
    (n m : ℕ) (vs : Rows)
    → n ≤ m
    → All (λ v. v.version_number < n) vs
    → All (λ v. v.version_number < m) vs
All-below_weaken n m vs h a = All-mono _ _ vs (λ v l. omega arith) a

next_number_above : (vs : Rows) → All (λ v. v.version_number < next_number vs) vs
unfolding next_number
next_number_above [] = tt
next_number_above (v ∷ vs) =
    (omega arith, All-below_weaken (next_number vs) _ vs (omega arith) (next_number_above vs))

module _ (parse_date : String → Option ℤ) (uuid : ℕ → String) where
  finish_versions :
      (input : PublishInput) (d action entity : String) (of : PersistResult → String)
      (saved : PersistResult) (s t : Store) (p : Published)
      → finish parse_date uuid input d (λ r. audit action entity (of r)) saved s ≡ (ok p, t)
      → (t.versions ≡ s.versions) × (p.version_id ≡ saved.version.id)
  unfolding finish
  finish_versions input d action entity of saved s t p h =
      let (a, u, cited, h1) =
        bind-eq-ok (publish_citations uuid input saved.version.id saved.nodes) _ s t h in
      let (c, w, reviewed, h3) =
        bind-eq-ok (accept_pending_reviews uuid d input.archive_id) _
          (audit action entity (of saved) u).1 t h1 in
      let cited_same = publish_citations-versions uuid input saved.version.id saved.nodes s in
      let reviewed_same =
        accept_pending_reviews-versions uuid d input.archive_id
          (audit action entity (of saved) u).1 in
      (ground arith, ground arith)

  -- In a store whose versions have distinct identifiers that are not empty, and whose next
  -- identifier is new and not empty: when a new version of a known document is published, that
  -- version is afterwards the document's only published one, with the hash and parser that were
  -- given and a number above all earlier ones.
  pub publish_next-one_live :
      (input : PublishInput) (existing : LegalDocument) (s t : Store) (p : Published)
      → IsConsistent uuid s
      → (existing.id == "") ≡ false
      → publish_next parse_date uuid input existing s ≡ (ok p, t)
      → (new : LegalDocumentVersion) × (keep (is_live existing.id) t.versions ≡ new ∷ [])
        × (new.id ≡ p.version_id)
        × (new.content_hash ≡ input.hash)
        × (new.parser_id ≡ input.parser_id)
        × All (λ v. v.version_number < new.version_number) (versions_of_document existing.id s)
  unfolding publish_next versions_of_document
  publish_next-one_live input existing s t p con named h =
      let versions = versions_of_document existing.id s in
      let c = is_canonicalization input versions in
      let live = keep (λ v. is_published v.status) versions in
      let (_, u, cleared, h1) =
        bind-eq-ok (supersede_all parse_date uuid c input.now live) _ s t h in
      let clear =
        supersede_all-Cleared parse_date uuid existing.id c input.now live s u cleared con.distinct
          (LiveIn-ext existing.id _ _ s.versions (λ k. sym (has-doc_live existing.id k s.versions))
            (LiveIn-keep existing.id s.versions))
          (All-kept _ (λ v. is_published v.status) versions
            (All-by_number _ (keep (λ v. v.document_id == existing.id) s.versions) (
              All-kept _ (λ v. v.document_id == existing.id) s.versions
                (All-has (ids s.versions) s.versions (λ k h. h) con.named)))) in
      let (saved, v, persisted, h2) = bind-eq-ok (persist_with parse_date uuid _) _ u t h1 in
      let (_, _, same_id, table) =
        persist_versions parse_date uuid _ existing.id u v saved persisted refl refl named
          (rw clear.same_next con.fresh_named) in
      let new : LegalDocumentVersion = version_row (uuid u.next) (
        version_input input existing.id (next_number versions)
          (if c then none else first_effective_from input.parsed)) in
      let absent : has (uuid u.next) (ids u.versions) ≡ false =
        rw clear.same_next (clear.same_ids (uuid s.next) ∙ con.fresh) in
      let (kept, same_version) =
        finish_versions input existing.id _ _ (λ r. r.version.id) saved v t p h2 in
      let final : t.versions ≡ u.versions ++ new ∷ [] =
        kept ∙ table ∙ put_absent new u.versions absent in
      (
        new,
        rw final (
            keep-append (is_live existing.id) u.versions (new ∷ [])
            ∙ rw (keep_of_LiveIn existing.id u.versions clear.none_live, eq_refl existing.id) refl),
        sym (same_version ∙ same_id),
        refl,
        refl,
        next_number_above versions,
      )
