-- ===== src/Corpus/Persist/Effect.antt =====
-- What a successful `persistWith` writes.
use tore_legal_data_engine.Prelude.{
  ℕ, ◌+◌, String, Option, none, some, [], ◌∷◌, ◌++◌, true, false, not, ◌≡◌, arith, ◌==◌, keep,
}
use tore_legal_data_engine.Prelude.Int.{ℤ}
use tore_legal_data_engine.Prelude.Result.{ok}
use tore_legal_data_engine.Domain.Entities.{LegalNodes, LegalDocumentVersion}
use tore_legal_data_engine.Domain.Version.{versions_do_not_overlap}
use tore_legal_data_engine.Domain.Hierarchy.Spec.{IsWellFormed}
use tore_legal_data_engine.Domain.Hierarchy.Sound.{assert_legal_node_hierarchy_iff}
use tore_legal_data_engine.Domain.Version.Laws.{IsSound, assert_document_version_iff}
use tore_legal_data_engine.Corpus.Store.{Store}
use tore_legal_data_engine.Corpus.Repositories.{
  version_row, id_or_fresh, save_document, save_version, replace_nodes, versions_of_document,
}
use tore_legal_data_engine.Corpus.Tables.{put}
use tore_legal_data_engine.Corpus.Persist.{
  PersistInput, PersistResult, checked_version, check_input, persist_with,
}

module _ (parse_date : String → Option ℤ) (uuid : ℕ → String) where
  -- The input passed every check against the store.
  pub record Checked (version : LegalDocumentVersion) (nodes : LegalNodes) (s : Store)
      : Type 0 where
    pub sound : IsSound parse_date version
    pub well_formed : IsWellFormed nodes
    pub clear :
        versions_do_not_overlap parse_date (
          keep (λ v. not (v.id == version.id)) (versions_of_document version.document_id s)
          ++ version ∷ [])
        ≡ true

  pub check_input-Checked :
      (version : LegalDocumentVersion) (nodes : LegalNodes) (s : Store)
      → check_input parse_date uuid version nodes s ≡ ok tt
      → Checked version nodes s
  unfolding check_input
  check_input-Checked version nodes s h = record {
    sound = (assert_document_version_iff parse_date version).0 (ground arith);
    well_formed = (assert_legal_node_hierarchy_iff nodes).0 (ground arith);
    clear = ground arith;
  }

  pub persist_versions :
      (input : PersistInput) (d : String) (s t : Store) (r : PersistResult)
      → persist_with parse_date uuid input s ≡ (ok r, t)
      → input.document.id ≡ some d
      → input.version.id ≡ none
      → (d == "") ≡ false
      → (uuid s.next == "") ≡ false
      → (check_input parse_date uuid
            (checked_version d (uuid s.next) input.version)
            input.nodes
            (record s { next = s.next + 1 })
          ≡ ok tt)
        × (r.document.id ≡ d)
        × (r.version.id ≡ uuid s.next)
        × (t.versions
            ≡ put (version_row (uuid s.next) (record input.version { document_id = d })) s.versions)
  unfolding persist_with id_or_fresh save_document save_version replace_nodes
  persist_versions input d s t r h di vi dn un =
      (ground arith, ground arith, ground arith, ground arith)
