-- ===== src/Corpus/Persist/Guarded.antt =====
-- `persist`: all or nothing, and nothing but checked input.
use tore_legal_data_engine.Prelude.{
  ℕ, String, Option, some, [], ◌∷◌, ◌++◌, map, true, false, not, ◌≡◌, arith, ◌==◌, keep, ap, subst,
}
use tore_legal_data_engine.Prelude.Int.{ℤ}
use tore_legal_data_engine.Prelude.Result.{Result, ok, err}
use tore_legal_data_engine.Domain.Entities.{LegalDocumentVersion}
use tore_legal_data_engine.Domain.Version.{versions_do_not_overlap}
use tore_legal_data_engine.Domain.Version.Laws.{IsSound}
use tore_legal_data_engine.Domain.Hierarchy.Spec.{IsWellFormed}
use tore_legal_data_engine.Domain.Hierarchy.{flatten_legal_nodes}
use tore_legal_data_engine.Corpus.Store.{Store, transaction-ok, transaction-err}
use tore_legal_data_engine.Corpus.Repositories.{
  version_row, id_or_fresh, save_document, save_version, replace_nodes, in_version,
  versions_of_document,
}
use tore_legal_data_engine.Corpus.Tables.{put}
use tore_legal_data_engine.Corpus.Persist.{
  PersistInput, PersistResult, text_or, checked_version, check_input, persist_with, persist,
}
use tore_legal_data_engine.Corpus.Persist.Effect.{check_input-Checked}

module _ (parse_date : String → Option ℤ) (uuid : ℕ → String) where
  abbrev pub row_of : PersistInput → String → String → LegalDocumentVersion
  row_of input d w = version_row w (record input.version { document_id = d })

  -- The row of the version is sound, the tree is well formed, the published ones among the document's
  -- other versions and the row do not overlap, and the row and the nodes are written.
  pub record IsWritten (input : PersistInput) (d w : String) (s t : Store) : Type 0 where
    pub sound : IsSound parse_date (row_of input d w)
    pub well_formed : IsWellFormed input.nodes
    pub clear :
        versions_do_not_overlap parse_date
          (keep (λ v. not (v.id == w)) (versions_of_document d s) ++ row_of input d w ∷ [])
        ≡ true
    pub version : t.versions ≡ put (row_of input d w) s.versions
    pub nodes :
        t.nodes
        ≡ keep (λ n. not (n.document_version_id == w)) s.nodes
          ++ map (in_version w) (flatten_legal_nodes input.nodes)

  -- What a call leaves behind, by its outcome.
  abbrev pub IsPersisted :
      PersistInput → String → String → Store → Result PersistResult → Store → Type 0
  IsPersisted input d w s (err e) t = t ≡ s
  IsPersisted input d w s (ok r) t = IsWritten input d w s t

  written :
      (input : PersistInput) (d w : String) (s t : Store) (r : PersistResult)
      → persist_with parse_date uuid input s ≡ (ok r, t)
      → input.document.id ≡ some d
      → input.version.id ≡ some w
      → (d == "") ≡ false
      → (w == "") ≡ false
      → (check_input parse_date uuid (checked_version d w input.version) input.nodes s ≡ ok tt)
        × (t.versions ≡ put (version_row w (record input.version { document_id = d })) s.versions)
        × (t.nodes
            ≡ keep (λ n. not (n.document_version_id == w)) s.nodes
              ++ map (in_version w) (flatten_legal_nodes input.nodes))
  unfolding persist_with id_or_fresh save_document save_version replace_nodes
  written input d w s t r h di vi dn wn = (ground arith, ground arith, ground arith)

  -- `persist` with identifiers that are given and not empty, of a version whose own `documentId` is
  -- empty or that of the document, either fails and leaves the store as it was, or the row it writes
  -- is sound, its tree is well formed, and the published ones among the document's other versions and
  -- that row do not overlap. Then the table of versions is as before but for the row, and the table
  -- of nodes but for the nodes of that version, which are those of the tree.
  pub persist-IsPersisted :
      (input : PersistInput) (d w : String) (s t : Store) (r : Result PersistResult)
      → persist parse_date uuid input s ≡ (r, t)
      → input.document.id ≡ some d
      → input.version.id ≡ some w
      → (d == "") ≡ false
      → (w == "") ≡ false
      → text_or input.version.document_id d ≡ d
      → IsPersisted input d w s r t
  unfolding persist
  persist-IsPersisted input d w s t (err e) h di vi dn wn own =
      transaction-err (persist_with parse_date uuid input) s t e h
  persist-IsPersisted input d w s t (ok r) h di vi dn wn own =
      let (checks, version, nodes) =
        written input d w s t r (transaction-ok (persist_with parse_date uuid input) s t r h) di vi
          dn wn in
      let same : checked_version d w input.version ≡ row_of input d w =
        ap (λ x. version_row w (record input.version { document_id = x })) own in
      let checked =
        check_input-Checked parse_date uuid (row_of input d w) input.nodes s
          (subst (λ v. check_input parse_date uuid v input.nodes s ≡ ok tt) same checks) in
      record {
        sound = checked.sound;
        well_formed = checked.well_formed;
        clear = checked.clear;
        version = version;
        nodes = nodes;
      }
