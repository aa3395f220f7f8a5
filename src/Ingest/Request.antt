-- ===== src/Ingest/Request.antt =====
-- What `publish` of src/application/ingest/ingest-legalinfo.service.ts is given, and what it derives
-- before it writes: identifiers, numbers of versions, and the rows to save.
use tore_legal_data_engine.Prelude.{
  ℕ, ◌+◌, String, Option, none, some, List, [], ◌∷◌, Bool, true, false, not, ◌&&◌, if◌then◌else◌,
  max, find_first, head?, or_opt, ◌==◌,
}
use tore_legal_data_engine.Prelude.Text.{◌<>◌}
use tore_legal_data_engine.Prelude.Result.{ok}
use tore_legal_data_engine.Domain.Enums.{VersionStatus, DocumentStatus}
use tore_legal_data_engine.Domain.Entities.{LegalDocument, LegalDocumentVersion}
use tore_legal_data_engine.Corpus.Store.{Action}
use tore_legal_data_engine.Corpus.Repositories.{SaveDocument, SaveVersion, log_audit}

-- `SOURCE_ID` and `ACTOR`
abbrev pub source_id : String
source_id = "mn.legalinfo"

abbrev pub actor : String
actor = "system/ingestion"

pub data Outcome : Type 0 where
  published unchanged : Outcome

-- What `publish` returns.
pub record Published : Type 0 where
  pub outcome : Outcome
  pub document_id : String
  pub version_id : String
  pub parse_review_id : Option String

-- The arguments of `publish`, with the identity of its parser.
pub record PublishInput : Type 0 where
  pub parsed : LegalDocument
  pub url : String
  pub hash : String
  pub archive_id : String
  pub law_id : Option String
  pub parser_id : String
  pub now : String

-- `ensureSource`
unfoldable pub ensure_source : Action (Unit {0})
ensure_source s = (ok tt, record s { source_known = true })

-- src/application/citations/parse-citation-query.ts, `citationKeyForNode`
unfoldable pub citation_key_for_node : Option String → String → String
citation_key_for_node none locator = locator
citation_key_for_node (some law) locator = if law == "" then locator else law <> ":" <> locator

abbrev pub audit : String → String → String → Action (Unit {0})
audit action entity_type entity_id = log_audit (record {
  actor = actor;
  action = action;
  entity_type = entity_type;
  entity_id = some entity_id;
})

-- `versions.find(…)`: an earlier version of the same archived bytes.
unfoldable pub prior_same_source :
    PublishInput → List LegalDocumentVersion → Option LegalDocumentVersion
prior_same_source input versions =
    find_first (λ v. (v.content_hash == input.hash) && (v.archive_record_id == input.archive_id))
      versions

-- Whether only the parser differs from that version.
unfoldable pub is_canonicalization : PublishInput → List LegalDocumentVersion → Bool
unfolding prior_same_source
is_canonicalization input versions = elim (prior_same_source input versions) [
  | none ↦ false
  | some prior ↦ not (prior.parser_id == input.parser_id)
]

-- What a published version becomes: its end date is kept, or set to now unless the new version only
-- re-reads the same bytes.
unfoldable pub superseded : Bool → String → LegalDocumentVersion → SaveVersion
superseded canonicalization now v = record {
  id = some v.id;
  document_id = v.document_id;
  version_number = v.version_number;
  effective_from = v.effective_from;
  effective_to = if canonicalization then v.effective_to else or_opt v.effective_to (some now);
  content_hash = v.content_hash;
  parser_id = v.parser_id;
  status = VersionStatus.superseded;
  amendment_document_id = v.amendment_document_id;
  archive_record_id = v.archive_record_id;
}

-- `Math.max(0, ...versions.map((item) => item.versionNumber)) + 1`
unfoldable pub max_number : List LegalDocumentVersion → ℕ
max_number [] = 0
max_number (v ∷ vs) = max v.version_number (max_number vs)

unfoldable pub next_number : List LegalDocumentVersion → ℕ
unfolding max_number
next_number versions = max_number versions + 1

abbrev pub first_effective_from : LegalDocument → Option String
first_effective_from d = elim (head? d.versions) [ none ↦ none | some v ↦ v.effective_from ]

abbrev pub document_input : PublishInput → Option String → SaveDocument
document_input input id = record {
  id = id;
  source_id = source_id;
  document_type = input.parsed.document_type;
  title = input.parsed.title;
  document_number = input.parsed.document_number;
  issuing_authority = input.parsed.issuing_authority;
  jurisdiction = input.parsed.jurisdiction;
  adopted_at = input.parsed.adopted_at;
  canonical_url = input.url;
  status = DocumentStatus.in_force;
}

abbrev pub version_input : PublishInput → String → ℕ → Option String → SaveVersion
version_input input document_id number effective_from = record {
  id = none;
  document_id = document_id;
  version_number = number;
  effective_from = effective_from;
  effective_to = none;
  content_hash = input.hash;
  parser_id = input.parser_id;
  status = VersionStatus.published;
  amendment_document_id = none;
  archive_record_id = input.archive_id;
}
