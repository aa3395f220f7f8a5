-- ===== src/Domain/CitationStatus.antt =====
-- src/domain/services/citation-status.ts: how many provisions a citation names.
pub mod Laws
use tore_legal_data_engine.Prelude.{
  String, none, List, [], ◌∷◌, map, Bool, eqb, length, if◌then◌else◌, is_empty,
}
use tore_legal_data_engine.Prelude.Keys.{unique}
use tore_legal_data_engine.Prelude.Text.{◌<>◌}
use tore_legal_data_engine.Domain.Enums.{
  CitationStatus, valid, unresolved, conflict, is_valid_status,
}
use tore_legal_data_engine.Domain.Entities.{CitationVerdict}

-- What `classifyCitationMatches` reads of a match.
pub record MatchKey : Type 0 where
  pub document_version_id : String
  pub node_id : String

abbrev pub key : MatchKey → String
key m = m.document_version_id <> ":" <> m.node_id

unfoldable pub is_authoritative_citation : CitationStatus → Bool
is_authoritative_citation status = is_valid_status status

unfoldable pub classify_citation_matches : List MatchKey → CitationStatus
unfolding unique
classify_citation_matches matches =
    if is_empty matches
    then unresolved
    else if eqb (length (unique (map key matches))) 1
    then valid
    else conflict

unfoldable pub refuse_if_not_valid : CitationVerdict → CitationVerdict
refuse_if_not_valid verdict =
    if is_valid_status verdict.status
    then verdict
    else record verdict { node_id = none; document_version_id = none; locator = none }
