-- ===== src/Ingest/Publish/Superseding.antt =====
-- Superseding every published version of a document leaves none of them published.
use tore_legal_data_engine.Prelude.{
  ℕ, String, Option, some, [], ◌∷◌, Bool, true, false, ◌≡◌, refl, ap, arith, All, All-mono, subst,
  eq_iff, ◌==◌, ◌∙◌,
}
use tore_legal_data_engine.Prelude.Int.{ℤ}
use tore_legal_data_engine.Prelude.Keys.{has, Distinct}
use tore_legal_data_engine.Prelude.Result.{Result, ok}
use tore_legal_data_engine.Domain.Entities.{LegalDocumentVersion}
use tore_legal_data_engine.Corpus.Store.{Store, bind-eq-ok}
use tore_legal_data_engine.Corpus.Repositories.{SaveVersion, version_row, save_version, id_or_fresh}
use tore_legal_data_engine.Corpus.Tables.{Rows, ids, put, LiveIn, LiveIn-put, Distinct-put, has-put}
use tore_legal_data_engine.Ingest.Request.{superseded}
use tore_legal_data_engine.Ingest.Publish.{supersede_all}

module _ (parse_date : String → Option ℤ) (uuid : ℕ → String) where
  -- A saved version with an identifier is put into its table, and nothing else is written.
  pub save_version-versions :
      (input : SaveVersion) (k : String) (s t : Store) (row : LegalDocumentVersion)
      → save_version parse_date uuid input s ≡ (ok row, t)
      → input.id ≡ some k
      → (k == "") ≡ false
      → (t ≡ record s { versions = put (version_row k input) s.versions })
        × (row ≡ version_row k input)
  unfolding save_version id_or_fresh
  save_version-versions input k s t row h e n = (ground arith, ground arith)

  pub record Cleared (d : String) (s t : Store) : Type 0 where
    pub none_live : LiveIn d [] t.versions
    pub distinct : Distinct (ids t.versions)
    pub same_ids : (k : String) → has k (ids t.versions) ≡ has k (ids s.versions)
    pub same_next : t.next ≡ s.next
    pub same_documents : t.documents ≡ s.documents

  has-put_present :
      (k : String) (row : LegalDocumentVersion) (rows : Rows)
      → has row.id (ids rows) ≡ true
      → has k (ids (put row rows)) ≡ has k (ids rows)
  has-put_present k row rows h = ground (arith, has-put k row rows, eq_iff row.id k)

  pub supersede_all-Cleared :
      (d : String) (c : Bool) (now : String) (vs : Rows) (s t : Store)
      → supersede_all parse_date uuid c now vs s ≡ (ok tt, t)
      → Distinct (ids s.versions)
      → LiveIn d (ids vs) s.versions
      → All (λ v. ((v.id == "") ≡ false) × (has v.id (ids s.versions) ≡ true)) vs
      → Cleared d s t
  unfolding supersede_all superseded
  supersede_all-Cleared d c now [] s t h dis live named =
      let e : s ≡ t = ap (λ (r : Result (Unit {0}) × Store). r.1) h in
      subst (Cleared d s) e (record {
        none_live = live;
        distinct = dis;
        same_ids = λ k. refl;
        same_next = refl;
        same_documents = refl;
      })
  supersede_all-Cleared d c now (v ∷ vs) s t h dis live ((n, here), ns) =
      let (row, u, saved, rest) =
        bind-eq-ok (save_version parse_date uuid (superseded c now v)) _ s t h in
      let (same, _) = save_version-versions (superseded c now v) v.id s u row saved refl n in
      let new : LegalDocumentVersion = version_row v.id (superseded c now v) in
      let s' : Store = record s { versions = put new s.versions } in
      let ih =
        supersede_all-Cleared d c now vs s' t (rw same at rest) (Distinct-put new s.versions dis)
          (LiveIn-put d new (ids vs) s.versions refl dis live)
          (All-mono _ _ vs (λ w p. (p.0, has-put_present w.id new s.versions here ∙ p.1)) ns) in
      record {
        none_live = ih.none_live;
        distinct = ih.distinct;
        same_ids = λ k. ih.same_ids k ∙ has-put_present k new s.versions here;
        same_next = ih.same_next;
        same_documents = ih.same_documents;
      }
