-- ===== src/Corpus/Persist.antt =====
-- src/application/legal-corpus/persist-document.ts: the one way in which a version is written.
pub mod Effect
pub mod Guarded
use tore_legal_data_engine.Prelude.{
  ℕ, String, Option, none, some, List, [], ◌∷◌, ◌++◌, Bool, true, false, not, if◌then◌else◌, ◌==◌,
  keep,
}
use tore_legal_data_engine.Prelude.Int.{ℤ}
use tore_legal_data_engine.Prelude.Result.{Result, ok, err, refuse_if}
use tore_legal_data_engine.Domain.Entities.{LegalNodes, LegalDocument, LegalDocumentVersion}
use tore_legal_data_engine.Domain.Version.{assert_document_version, versions_do_not_overlap}
use tore_legal_data_engine.Domain.Hierarchy.{assert_legal_node_hierarchy}
use tore_legal_data_engine.Corpus.Store.{
  Store, Action, ◌>>=◌, ◌>>◌, pure, lift, gets, transaction, after,
}
use tore_legal_data_engine.Corpus.Repositories.{
  SaveDocument, SaveVersion, version_row, id_or_fresh, save_document, save_version, replace_nodes,
  versions_of_document,
}

pub record PersistInput : Type 0 where
  pub document : SaveDocument
  pub version : SaveVersion
  pub nodes : LegalNodes

pub record PersistResult : Type 0 where
  pub document : LegalDocument
  pub version : LegalDocumentVersion
  pub nodes : LegalNodes

-- `a || b` on texts.
abbrev pub text_or : String → String → String
text_or a b = if a == "" then b else a

-- The version as it is checked, with the identifiers that are settled first.
abbrev pub checked_version : String → String → SaveVersion → LegalDocumentVersion
checked_version document_id version_id v =
    version_row version_id (record v { document_id = text_or v.document_id document_id })

module _ (parse_date : String → Option ℤ) (uuid : ℕ → String) where
  -- The checks that come before the first write.
  unfoldable pub check_input : LegalDocumentVersion → LegalNodes → Store → Result (Unit {0})
  check_input version nodes s =
      let next =
        keep (λ v. not (v.id == version.id)) (versions_of_document version.document_id s)
        ++ version ∷ [] in
      elim (assert_document_version parse_date version) [
        | err e ↦ err e
        | ok _ ↦ elim (assert_legal_node_hierarchy nodes) [
          | err e ↦ err e
          | ok _ ↦
              refuse_if (not (versions_do_not_overlap parse_date next))
                "published versions for the same document must not overlap"
        ]
      ]

  unfoldable pub persist_with : PersistInput → Action PersistResult
  persist_with input = do
    document_id ← id_or_fresh uuid input.document.id
    version_id ← id_or_fresh uuid input.version.id
    (λ s. (check_input (checked_version document_id version_id input.version) input.nodes s, s))
    document ← save_document uuid (record input.document { id = some document_id })
    version ←
        save_version parse_date uuid
          (record input.version { id = some version_id; document_id = document.id })
    nodes ← replace_nodes version.id input.nodes
    pure (record { document = document; version = version; nodes = nodes })

  -- `PersistLegalDocumentService.persist`
  unfoldable pub persist : PersistInput → Action PersistResult
  persist input = transaction (persist_with input)
