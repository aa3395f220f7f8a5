-- ===== src/Publication/Gate.antt =====
-- src/application/ingest/publication-gate.ts: `assessPublicationGate`.
use tore_legal_data_engine.Prelude.{
  String, Option, none, some, List, [], ◌∷◌, ◌++◌, map, Bool, false, not, ◌&&◌, ◌||◌, if◌then◌else◌,
  eqb, is_empty, keep, some_of, truthy, or_else, ◌==◌, head?, same_opt,
}
use tore_legal_data_engine.Prelude.Keys.{unique}
use tore_legal_data_engine.Prelude.Text.{trim}
use tore_legal_data_engine.Prelude.Result.{Result, ok, err}
use tore_legal_data_engine.Regex.{test}
use tore_legal_data_engine.Domain.Enums.{document, book, part, section, same_type}
use tore_legal_data_engine.Domain.Entities.{
  FlatNode, LegalNodes, nil, LegalDocument, LegalDocumentVersion,
}
use tore_legal_data_engine.Domain.Hierarchy.{assert_legal_node_hierarchy, flatten_legal_nodes}
use tore_legal_data_engine.Evaluation.Structure.{VersionStructureReport, evaluate_version_structure}
use tore_legal_data_engine.Publication.Patterns.{locator_re, chrome_only_re}
use tore_legal_data_engine.Publication.Confidence.{reason_if, repeats, confidence_reasons}
use tore_legal_data_engine.Publication.SpecialLaws.{special_law_reasons}

-- `catch (error) { reasons.push(error.message) }`
abbrev pub message_of : Result (Unit {0}) → List String
message_of (ok _) = []
message_of (err e) = e.message ∷ []

-- The reasons that a failed structure report gives.
unfoldable pub structure_reasons : VersionStructureReport → List String
structure_reasons s =
    if s.pass
    then []
    else reason_if (not (is_empty s.duplicate_locators)) "duplicate_locators"
      ++ (reason_if (not (is_empty s.orphans)) "orphan_nodes"
          ++ (reason_if (not (is_empty s.invalid_parents) || not (is_empty s.incompatible_types))
                "invalid_parent_relationships"
              ++ reason_if (not (eqb s.document_parents 1)) "broken_article_hierarchy"))

unfoldable pub is_structural : FlatNode → Bool
is_structural n =
    same_type n.node_type book || (same_type n.node_type part || same_type n.node_type section)

unfoldable pub is_chrome : FlatNode → Bool
is_chrome n =
    not (same_type n.node_type document)
    && (test chrome_only_re (trim n.text) || test chrome_only_re (trim (or_else n.title "")))

-- `version?.nodes ?? []`
abbrev pub nodes_of : Option LegalDocumentVersion → LegalNodes
nodes_of none = nil
nodes_of (some v) = v.nodes

abbrev pub tree_of : LegalDocument → LegalNodes
tree_of d = nodes_of (head? d.versions)

-- `version?.id ?? "gate"`
abbrev pub version_id_of : Option LegalDocumentVersion → String
version_id_of none = "gate"
version_id_of (some v) = v.id

-- `version?.effectiveTo`
abbrev pub ends : Option LegalDocumentVersion → Bool
ends none = false
ends (some v) = truthy v.effective_to

-- The reasons in the order in which they are pushed, repetitions included.
unfoldable pub gate_reasons : LegalDocument → String → String → Option String → List String
gate_reasons d archive_sha256 bytes_sha256 law_id =
    let tree = tree_of d in
    let flat = flatten_legal_nodes tree in
    confidence_reasons d
    ++ (reason_if (not (archive_sha256 == bytes_sha256)) "archive_hash_mismatch"
        ++ (message_of (assert_legal_node_hierarchy tree)
            ++ (structure_reasons
                  (evaluate_version_structure d.id (version_id_of (head? d.versions)) flat)
                ++ (reason_if
                      (repeats [] (
                        map (λ n. n.source_locator)
                          (keep (λ n. not (same_type n.node_type document)) flat)))
                      "duplicate_citation_locators"
                    ++ (reason_if (some_of (λ n. not (test locator_re n.source_locator)) flat)
                          "invented_locator"
                        ++ (reason_if
                              (some_of
                                (λ n. same_opt n.chapter (some "0") || (n.source_locator == "ch-0"))
                                flat)
                              "invented_locator"
                            ++ (reason_if (some_of is_structural flat) "invented_structural_level"
                                ++ (reason_if (some_of is_chrome flat) "chrome_or_toc_node"
                                    ++ (reason_if (ends (head? d.versions)) "unsafe_effective_to"
                                        ++ special_law_reasons law_id d flat)))))))))

pub data PublicationGateResult : Type 0 where
  passed : PublicationGateResult
  refused : List String → PublicationGateResult

-- The source's `warnings` is an empty list on both branches.
unfoldable pub assess_publication_gate :
    LegalDocument → String → String → Option String → PublicationGateResult
unfolding gate_reasons
assess_publication_gate d archive_sha256 bytes_sha256 law_id =
    let reasons = unique (gate_reasons d archive_sha256 bytes_sha256 law_id) in
    if is_empty reasons then passed else refused reasons
