-- ===== src/Corpus/Repositories.antt =====
-- src/infrastructure/prisma: the repositories over the tables. The database keeps instants as
-- timestamps; here they stay the texts that were given. Identifiers that the database or
-- `randomUUID` draws are `uuid 0, uuid 1, …`, a parameter.
use tore_legal_data_engine.Prelude.{
  ℕ, ◌+◌, String, Option, none, some, List, [], ◌∷◌, ◌++◌, map, not, ◌&&◌, if◌then◌else◌, ◌==◌, ltb,
  keep, find_first, or_else,
}
use tore_legal_data_engine.Prelude.Int.{ℤ}
use tore_legal_data_engine.Prelude.Result.{ok}
use tore_legal_data_engine.Domain.Enums.{VersionStatus, DocumentType, DocumentStatus}
use tore_legal_data_engine.Domain.Entities.{
  FlatNode, LegalNodes, nil, LegalDocument, LegalDocumentVersion, CitationRecord, ParseReview,
  EngineAuditLog,
}
use tore_legal_data_engine.Domain.Version.{assert_document_version}
use tore_legal_data_engine.Domain.Hierarchy.{flatten_legal_nodes}
use tore_legal_data_engine.Domain.Hierarchy.Assemble.{assemble_legal_node_tree}
use tore_legal_data_engine.Corpus.Store.{Store, Action, ◌>>=◌, ◌>>◌, lift, upsert}

-- `SaveLegalDocument`
pub record SaveDocument : Type 0 where
  pub id : Option String
  pub source_id : String
  pub document_type : DocumentType
  pub title : String
  pub document_number : Option String
  pub issuing_authority : String
  pub jurisdiction : String
  pub adopted_at : Option String
  pub canonical_url : String
  pub status : DocumentStatus

-- `SaveLegalDocumentVersion`
pub record SaveVersion : Type 0 where
  pub id : Option String
  pub document_id : String
  pub version_number : ℕ
  pub effective_from : Option String
  pub effective_to : Option String
  pub content_hash : String
  pub parser_id : String
  pub status : VersionStatus
  pub amendment_document_id : Option String
  pub archive_record_id : String

-- The row that a saved version becomes.
abbrev pub version_row : String → SaveVersion → LegalDocumentVersion
version_row id v = record {
  id = id;
  document_id = v.document_id;
  version_number = v.version_number;
  effective_from = v.effective_from;
  effective_to = v.effective_to;
  content_hash = v.content_hash;
  parser_id = v.parser_id;
  status = v.status;
  amendment_document_id = v.amendment_document_id;
  archive_record_id = v.archive_record_id;
  nodes = nil;
}

abbrev pub document_row : String → SaveDocument → LegalDocument
document_row id d = record {
  id = id;
  source_id = d.source_id;
  document_type = d.document_type;
  title = d.title;
  document_number = d.document_number;
  issuing_authority = d.issuing_authority;
  jurisdiction = d.jurisdiction;
  adopted_at = d.adopted_at;
  canonical_url = d.canonical_url;
  status = d.status;
  versions = [];
}

-- `orderBy: { versionNumber: "asc" }`
unfoldable pub insert_version :
    LegalDocumentVersion → List LegalDocumentVersion → List LegalDocumentVersion
insert_version v [] = v ∷ []
insert_version v (w ∷ ws) =
    if ltb v.version_number w.version_number then v ∷ w ∷ ws else w ∷ insert_version v ws

unfoldable pub by_number : List LegalDocumentVersion → List LegalDocumentVersion
unfolding insert_version
by_number [] = []
by_number (v ∷ vs) = insert_version v (by_number vs)

unfoldable pub document_at_url : String → String → Store → Option LegalDocument
document_at_url source url s =
    find_first (λ d. (d.source_id == source) && (d.canonical_url == url)) s.documents

-- The versions of one document, by number.
unfoldable pub versions_of_document : String → Store → List LegalDocumentVersion
unfolding by_number
versions_of_document id s = by_number (keep (λ v. v.document_id == id) s.versions)

unfoldable pub version_by_id : String → Store → Option LegalDocumentVersion
version_by_id id s = find_first (λ v. v.id == id) s.versions

unfoldable pub version_with_content : String → String → String → Store → Option LegalDocumentVersion
version_with_content id hash parser s =
    find_first (λ v. (v.document_id == id) && ((v.content_hash == hash) && (v.parser_id == parser)))
      s.versions

unfoldable pub tree_of_version : String → Store → LegalNodes
tree_of_version version s =
    assemble_legal_node_tree (keep (λ n. n.document_version_id == version) s.nodes)

abbrev pub in_version : String → FlatNode → FlatNode
in_version version n = record n { document_version_id = version }

-- The citations and nodes of the version are deleted, and the tree's nodes are created in preorder.
unfoldable pub replace_nodes : String → LegalNodes → Action LegalNodes
replace_nodes version tree s =
    let flat = map (in_version version) (flatten_legal_nodes tree) in
    let t : Store = record s {
      citations = keep (λ c. not (c.document_version_id == version)) s.citations;
      nodes = keep (λ n. not (n.document_version_id == version)) s.nodes ++ flat;
    } in
    (ok (tree_of_version version t), t)

abbrev pub log_audit : EngineAuditLog → Action (Unit {0})
log_audit a s = (ok tt, record s { audits = s.audits ++ a ∷ [] })

unfoldable pub reviews_of_document : String → Store → List ParseReview
reviews_of_document id s = keep (λ r. r.document_id == id) s.reviews

-- `input.id` in a condition: an empty id counts as none.
abbrev pub non_empty : Option String → Option String
non_empty none = none
non_empty (some id) = if id == "" then none else some id

module _ (uuid : ℕ → String) where
  -- `id ?? randomUUID()`
  unfoldable pub id_or_fresh : Option String → Action String
  id_or_fresh (some id) s = (ok id, s)
  id_or_fresh none s = (ok (uuid s.next), record s { next = s.next + 1 })

  unfoldable pub save_document : SaveDocument → Action LegalDocument
  unfolding id_or_fresh
  save_document input = do
    id ← id_or_fresh (non_empty input.id)
    λ s. (
      ok (document_row id input),
      record s { documents = upsert (λ d. d.id) (document_row id input) s.documents },
    )

  unfoldable pub save_review : Option String → ParseReview → Action ParseReview
  unfolding id_or_fresh
  save_review given input = do
    id ← id_or_fresh (non_empty given)
    λ s. (
      ok (record input { id = id }),
      record s { reviews = upsert (λ r. r.id) (record input { id = id }) s.reviews },
    )

  unfoldable pub save_citation : CitationRecord → Action CitationRecord
  unfolding id_or_fresh
  save_citation input = do
    id ← id_or_fresh none
    λ s. (
      ok (record input { id = id }),
      record s { citations = s.citations ++ record input { id = id } ∷ [] },
    )

module _ (parse_date : String → Option ℤ) (uuid : ℕ → String) where
  unfoldable pub save_version : SaveVersion → Action LegalDocumentVersion
  unfolding id_or_fresh
  save_version input = do
    lift (assert_document_version parse_date (version_row (or_else input.id "pending") input))
    id ← id_or_fresh uuid (non_empty input.id)
    λ s. (
      ok (version_row id input),
      record s { versions = upsert (λ v. v.id) (version_row id input) s.versions },
    )
