-- ===== src/Evaluation/RoundTrip.antt =====
-- src/application/evaluation/evaluate-version.ts, `evaluateCitationRoundTrip`.
use tore_legal_data_engine.Prelude.{
  ℕ, ◌-◌, String, Option, none, some, List, [], ◌∷◌, ◌++◌, map, Bool, not, ◌&&◌, ◌||◌,
  if◌then◌else◌, length, ◌==◌,
}
use tore_legal_data_engine.Prelude.Keys.{unique}
use tore_legal_data_engine.Prelude.Maps.{StringMap, get}
use tore_legal_data_engine.Prelude.Text.{is_blank}
use tore_legal_data_engine.Domain.Enums.{
  LegalNodeType, article, paragraph, clause, sub_clause, same_type,
}
use tore_legal_data_engine.Domain.Entities.{FlatNode, CitationRecord}
use tore_legal_data_engine.Evaluation.Structure.{by_id}

pub data Reason : Type 0 where
  missing_node locator_mismatch version_mismatch empty_source_text empty_citation_text : Reason
  missing_content_hash : Reason

pub record CitationRoundTripFailure : Type 0 where
  pub citation_id : String
  pub reason : Reason
  pub locator : String

unfoldable pub expects_legal_text : LegalNodeType → Bool
expects_legal_text type =
    same_type type article
    || (same_type type paragraph || (same_type type clause || same_type type sub_clause))

abbrev failure : CitationRecord → Reason → CitationRoundTripFailure
failure c r = record { citation_id = c.id; reason = r; locator = c.locator }

abbrev report : Bool → CitationRecord → Reason → List CitationRoundTripFailure
report bad c r = if bad then failure c r ∷ [] else []

-- The body of the loop for one citation, with the node that the map gives for it.
unfoldable pub citation_failures : CitationRecord → Option FlatNode → List CitationRoundTripFailure
unfolding expects_legal_text
citation_failures c none = failure c missing_node ∷ []
citation_failures c (some node) =
    report (not (node.source_locator == c.locator)) c locator_mismatch
    ++ (report (not (node.document_version_id == c.document_version_id)) c version_mismatch
        ++ (report (expects_legal_text node.node_type && is_blank node.text) c empty_source_text
            ++ (report (is_blank c.exact_text) c empty_citation_text
                ++ report (is_blank c.content_hash || is_blank node.content_hash) c
                    missing_content_hash)))

unfoldable pub round_trip_failures :
    StringMap FlatNode → List CitationRecord → List CitationRoundTripFailure
unfolding citation_failures
round_trip_failures m [] = []
round_trip_failures m (c ∷ cs) =
    citation_failures c (get c.legal_node_id m) ++ round_trip_failures m cs

pub record RoundTripReport : Type 0 where
  pub failures : List CitationRoundTripFailure
  pub ok : ℕ

unfoldable pub evaluate_citation_round_trip : List FlatNode → List CitationRecord → RoundTripReport
unfolding round_trip_failures unique
evaluate_citation_round_trip nodes citations =
    let fs = round_trip_failures (by_id nodes) citations in
    record { failures = fs; ok = length citations - length (unique (map (λ f. f.citation_id) fs)) }
