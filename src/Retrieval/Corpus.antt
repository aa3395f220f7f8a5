-- ===== src/Retrieval/Corpus.antt =====
-- The queries of `CorpusRetrieval` on the tables: `findById`, `findTreeByVersion` and `findNode` of
-- src/infrastructure/prisma/prisma-legal-node.repository.ts, `findPublishedForDocument` of the version
-- repository, `findPublishedMatches` of the citation repository. The ranked search is SQL and a
-- parameter, as is the database's case-insensitive `contains`.
use tore_legal_data_engine.Prelude.{
  ℕ, String, Option, none, some, List, [], ◌∷◌, ◌++◌, map, Bool, true, ◌&&◌, ◌||◌, ◌≡◌, arith,
  if◌then◌else◌, truthy, or_else, keep, find_first, ltb, ◌==◌, All,
}
use tore_legal_data_engine.Prelude.Int.{ℤ}
use tore_legal_data_engine.Prelude.Text.{slice_start}
use tore_legal_data_engine.Domain.Enums.{VersionStatus, is_published}
use tore_legal_data_engine.Domain.Entities.{
  FlatNode, LegalNodes, nil, cons, legal_node, LegalDocumentVersion, LegalNodeSearchCandidate,
  CitationRecord, CitationMatch,
}
use tore_legal_data_engine.Domain.Version.{version_covers_instant}
use tore_legal_data_engine.Domain.Hierarchy.{flatten_legal_nodes}
use tore_legal_data_engine.Corpus.Store.{Store}
use tore_legal_data_engine.Corpus.Repositories.{version_by_id, tree_of_version}
use tore_legal_data_engine.Citations.Lookup.{
  CitationLookup, CitationRow, find_published_matches, distinct_rows, row_key, is_superseded,
}
use tore_legal_data_engine.Retrieval.{Queries}
use tore_legal_data_engine.Retrieval.AsOf.{IsTimely, CoversAt}

abbrev or_else_node : Option FlatNode → Option FlatNode → Option FlatNode
or_else_node none b = b
or_else_node (some a) b = some a

-- `findNode`: the first node with the id, each before its children.
unfoldable pub find_node : LegalNodes → String → Option FlatNode
find_node nil id = none
find_node (cons (legal_node n children) siblings) id =
    let nested = find_node children id in
    let later = find_node siblings id in if n.id == id then some n else or_else_node nested later

-- `findById` of the node repository: the row's version is assembled and searched.
unfoldable pub node_by_id : Store → String → Option FlatNode
node_by_id s id = elim (find_first (λ n. n.id == id) s.nodes) [
  | none ↦ none
  | some row ↦ find_node (tree_of_version row.document_version_id s) id
]

-- `orderBy: { versionNumber: "desc" }`
unfoldable pub insert_newest :
    LegalDocumentVersion → List LegalDocumentVersion → List LegalDocumentVersion
insert_newest v [] = v ∷ []
insert_newest v (w ∷ ws) =
    if ltb w.version_number v.version_number then v ∷ w ∷ ws else w ∷ insert_newest v ws

unfoldable pub newest_first : List LegalDocumentVersion → List LegalDocumentVersion
unfolding insert_newest
newest_first [] = []
newest_first (v ∷ vs) = insert_newest v (newest_first vs)

-- The row of a citation with its node, its version and the version's document.
unfoldable pub joined : Store → CitationRecord → List CitationRow
joined s c = elim (find_first (λ n. n.id == c.legal_node_id) s.nodes) [
  | none ↦ []
  | some n ↦ elim (version_by_id c.document_version_id s) [
    | none ↦ []
    | some v ↦ elim (find_first (λ d. d.id == v.document_id) s.documents) [
      | none ↦ []
      | some d ↦ record { citation = c; node = n; version = v; document = d } ∷ []
    ]
  ]
]

unfoldable pub join_all : Store → List CitationRecord → List CitationRow
join_all s [] = []
join_all s (c ∷ cs) = joined s c ++ join_all s cs

-- What `findPublishedMatches` returns of a row.
unfoldable pub citation_match : CitationRow → CitationMatch
citation_match r = record {
  citation = r.citation;
  document_id = r.version.document_id;
  document_version_id = r.citation.document_version_id;
  version_status = r.version.status;
  effective_from = r.version.effective_from;
  effective_to = r.version.effective_to;
  parser_id = r.version.parser_id;
  source_content_hash = r.version.content_hash;
  archive_record_id = r.version.archive_record_id;
  node_id = r.citation.legal_node_id;
  locator = r.citation.locator;
  title = r.node.title;
  excerpt = slice_start 500 r.citation.exact_text;
  content_hash = r.citation.content_hash;
}

module _ (parse_date : String → Option ℤ) where
  -- `findPublishedForDocument`
  unfoldable pub published_for_document :
      Store → String → Option String → Option LegalDocumentVersion
  published_for_document s id as_of =
      if truthy as_of
      then find_first
          (λ v.
            version_covers_instant parse_date v.effective_from v.effective_to (or_else as_of ""))
          (newest_first (
            keep (λ v. (v.document_id == id) && (is_published v.status || is_superseded v.status))
              s.versions))
      else find_first (λ v. true)
          (newest_first (keep (λ v. (v.document_id == id) && is_published v.status) s.versions))

  find_first-holds :
      (p : LegalDocumentVersion → Bool) (vs : List LegalDocumentVersion) (v : LegalDocumentVersion)
      → find_first p vs ≡ some v
      → p v ≡ true
  find_first-holds p [] v h = cc
  find_first-holds p (w ∷ vs) v h = ground (arith, find_first-holds p vs v)

module _ (contains_title : String → String → Bool) (parse_date : String → Option ℤ)
    (search : Store → List VersionStatus → ℕ → String → List LegalNodeSearchCandidate) where
  unfoldable pub queries_of : Store → Queries
  queries_of s = record {
    node_by_id = node_by_id s;
    version_by_id = λ id. version_by_id id s;
    published_version = published_for_document parse_date s;
    nodes_of_version = λ id. flatten_legal_nodes (tree_of_version id s);
    matches = λ l.
        map citation_match
          (find_published_matches contains_title parse_date l (join_all s s.citations));
    candidates = search s;
  }

  distinct_rows-in_time :
      (l : CitationLookup) (t : String) (seen : List String) (rs : List CitationRow)
      → l.as_of ≡ some t
      → truthy (some t) ≡ true
      → All
          (λ m. CoversAt parse_date m.effective_from m.effective_to t)
          (map citation_match (distinct_rows contains_title parse_date l seen rs))
  unfolding distinct_rows citation_match
  distinct_rows-in_time l t seen [] e g = tt
  distinct_rows-in_time l t seen (r ∷ rs) e g = ground (
    arith,
    distinct_rows-in_time l t seen rs e g,
    distinct_rows-in_time l t (row_key contains_title parse_date r ∷ seen) rs e g,
  )

  -- The queries on the tables keep what retrieval relies on: with an instant given, the version found
  -- for a document and the versions of all citation matches cover it.
  pub queries_of-IsTimely : (s : Store) → IsTimely parse_date (queries_of s)
  unfolding queries_of published_for_document find_published_matches
  queries_of-IsTimely s = record {
    published_version = λ id t v g e.
        find_first-holds parse_date
          (λ v. version_covers_instant parse_date v.effective_from v.effective_to t)
          (newest_first (
            keep (λ v. (v.document_id == id) && (is_published v.status || is_superseded v.status))
              s.versions))
          v (rw g at e);
    matches = λ l t e g. distinct_rows-in_time l t [] _ e g;
  }
