-- ===== src/Retrieval.antt =====
-- src/application/legal-corpus/corpus-retrieval.ts: `CorpusRetrieval`, over the repositories'
-- queries, which it takes as a record. Logging and `retrievedAt` are left out.
pub mod AsOf
pub mod Corpus
use tore_legal_data_engine.Prelude.{
  ℕ, String, Option, none, some, List, [], ◌∷◌, ◌++◌, map, Bool, true, false, not, ◌&&◌, ◌||◌, ◌≡◌,
  if◌then◌else◌, truthy, or_else, or_opt, keep, take, is_empty, ◌==◌, All,
}
use tore_legal_data_engine.Prelude.Int.{ℤ}
use tore_legal_data_engine.Prelude.Text.{◌<>◌, slice_start}
use tore_legal_data_engine.Domain.Enums.{VersionStatus}
use tore_legal_data_engine.Domain.Entities.{
  FlatNode, LegalDocumentVersion, LegalNodeSearchCandidate, CitationMatch,
}
use tore_legal_data_engine.Domain.Version.{version_covers_instant}
use tore_legal_data_engine.Domain.OpenQuestion.{
  max_open_question_candidates, normalize_open_question, filter_and_dedupe_candidates,
}
use tore_legal_data_engine.Citations.Query.{parse_exact_citation_query}
use tore_legal_data_engine.Citations.Lookup.{CitationLookup}

-- An entry of `citations` of a request.
pub record CitedQuery : Type 0 where
  pub query : String
  pub node_id : Option String

pub record RetrieveRequest : Type 0 where
  pub question : String
  pub citations : List CitedQuery
  pub as_of : Option String
  pub document_id : Option String
  pub node_id : Option String
  pub citation_key : Option String
  pub locator : Option String

pub record RetrievedAuthority : Type 0 where
  pub node_id : String
  pub document_id : String
  pub document_version_id : String
  pub locator : String
  pub title : String
  pub excerpt : String
  pub content_hash : String
  pub source_content_hash : String
  pub parser_id : String
  pub archive_record_id : String
  pub effective_from : Option String
  pub effective_to : Option String

pub data RetrieveStatus : Type 0 where
  ok placeholder as_of_unavailable : RetrieveStatus

pub record RetrieveResponse : Type 0 where
  pub authorities : List RetrievedAuthority
  pub status : RetrieveStatus

-- The queries that retrieval makes of the repositories.
pub record Queries : Type 0 where
  pub node_by_id : String → Option FlatNode
  pub version_by_id : String → Option LegalDocumentVersion
  pub published_version : String → Option String → Option LegalDocumentVersion
  pub nodes_of_version : String → List FlatNode
  pub matches : CitationLookup → List CitationMatch
  pub candidates : List VersionStatus → ℕ → String → List LegalNodeSearchCandidate

abbrev pub max_authorities : ℕ
max_authorities = 100

-- `node.title ?? (node.article ? `Article ${node.article}` : node.sourceLocator)`
unfoldable pub title_of : FlatNode → String
title_of n =
    or_else n.title
      (if truthy n.article then "Article " <> or_else n.article "" else n.source_locator)

unfoldable pub to_authority : FlatNode → String → LegalDocumentVersion → RetrievedAuthority
to_authority n document_id v = record {
  node_id = n.id;
  document_id = document_id;
  document_version_id = v.id;
  locator = n.source_locator;
  title = title_of n;
  excerpt = slice_start 500 n.text;
  content_hash = n.content_hash;
  source_content_hash = v.content_hash;
  parser_id = v.parser_id;
  archive_record_id = v.archive_record_id;
  effective_from = v.effective_from;
  effective_to = v.effective_to;
}

-- The authority of a citation match.
unfoldable pub of_match : CitationMatch → RetrievedAuthority
of_match m = record {
  node_id = m.node_id;
  document_id = m.document_id;
  document_version_id = m.document_version_id;
  locator = m.locator;
  title = or_else m.title m.locator;
  excerpt = m.excerpt;
  content_hash = m.content_hash;
  source_content_hash = m.source_content_hash;
  parser_id = m.parser_id;
  archive_record_id = m.archive_record_id;
  effective_from = m.effective_from;
  effective_to = m.effective_to;
}

-- The authority of a ranked candidate: `toAuthority` on its node and the version's fields.
unfoldable pub of_candidate : LegalNodeSearchCandidate → RetrievedAuthority
of_candidate c = record {
  node_id = c.node.id;
  document_id = c.document_id;
  document_version_id = c.version_id;
  locator = c.node.source_locator;
  title = title_of c.node;
  excerpt = slice_start 500 c.node.text;
  content_hash = c.node.content_hash;
  source_content_hash = c.source_content_hash;
  parser_id = c.parser_id;
  archive_record_id = c.archive_record_id;
  effective_from = c.effective_from;
  effective_to = c.effective_to;
}

-- `request.citationKey ?? request.locator ?? request.question`
abbrev pub query_of : RetrieveRequest → String
query_of r = or_else r.citation_key (or_else r.locator r.question)

unfoldable pub key_lookup : RetrieveRequest → CitationLookup
key_lookup r =
    let parsed = parse_exact_citation_query (query_of r) in
    record {
      query = query_of r;
      node_id = none;
      document_id = none;
      locator = or_opt r.locator parsed.locator;
      citation_key = r.citation_key;
      title_hint = parsed.title_hint;
      article = parsed.article;
      paragraph = parsed.paragraph;
      as_of = r.as_of;
    }

unfoldable pub cited_lookup : Option String → CitedQuery → CitationLookup
cited_lookup as_of c =
    let parsed = parse_exact_citation_query c.query in
    record {
      query = c.query;
      node_id = c.node_id;
      document_id = none;
      locator = parsed.locator;
      citation_key = none;
      title_hint = parsed.title_hint;
      article = parsed.article;
      paragraph = parsed.paragraph;
      as_of = as_of;
    }

-- The statuses that an open question may meet.
abbrev pub statuses : Option String → List VersionStatus
statuses as_of =
    if truthy as_of
    then VersionStatus.published ∷ VersionStatus.superseded ∷ []
    else VersionStatus.published ∷ []

module _ (parse_date : String → Option ℤ) (q : Queries) where
  unfoldable pub lookup_node : Option String → String → List RetrievedAuthority
  lookup_node as_of id = elim (q.node_by_id id) [
    | none ↦ []
    | some n ↦ elim (q.version_by_id n.document_version_id) [
      | none ↦ []
      | some v ↦
          if truthy as_of
            && not (
                version_covers_instant parse_date v.effective_from v.effective_to
                  (or_else as_of ""))
          then []
          else to_authority n v.document_id v ∷ []
    ]
  ]

  unfoldable pub lookup_document : Option String → String → List RetrievedAuthority
  lookup_document as_of id = elim (q.published_version id as_of) [
    | none ↦ []
    | some v ↦ map (λ n. to_authority n v.document_id v) (q.nodes_of_version v.id)
  ]

  -- The loop over the citations of the request.
  unfoldable pub lookup_citations : Option String → List CitedQuery → List RetrievedAuthority
  lookup_citations as_of [] = []
  lookup_citations as_of (c ∷ cs) =
      map of_match (q.matches (cited_lookup as_of c)) ++ lookup_citations as_of cs

  unfoldable pub search_open_question : Option String → String → List RetrievedAuthority
  search_open_question as_of question = map of_candidate (
      filter_and_dedupe_candidates parse_date
        (q.candidates (statuses as_of) max_open_question_candidates question) as_of)

  unfoldable pub lookup : RetrieveRequest → List RetrievedAuthority
  lookup r =
      if truthy r.node_id
      then lookup_node r.as_of (or_else r.node_id "")
      else if truthy r.document_id
      then lookup_document r.as_of (or_else r.document_id "")
      else if truthy r.citation_key || truthy r.locator
      then map of_match (q.matches (key_lookup r))
      else if not (is_empty r.citations)
      then lookup_citations r.as_of r.citations
      else if normalize_open_question r.question == ""
      then []
      else search_open_question r.as_of (normalize_open_question r.question)

  -- The last filter of an as-of request, and the bound on the number of authorities.
  unfoldable pub respond : Option String → List RetrievedAuthority → RetrieveResponse
  respond as_of found =
      let verified = keep (λ a. truthy a.effective_from && truthy a.effective_to) found in
      if truthy as_of
      then if is_empty verified
        then record { authorities = []; status = as_of_unavailable }
        else record { authorities = take max_authorities verified; status = ok }
      else record { authorities = take max_authorities found; status = ok }

  unfoldable pub retrieve : RetrieveRequest → RetrieveResponse
  retrieve r = respond r.as_of (lookup r)
