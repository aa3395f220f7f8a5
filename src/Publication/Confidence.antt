-- ===== src/Publication/Confidence.antt =====
-- src/parsers/legalinfo/confidence.ts: `assessParseConfidence`.
use tore_legal_data_engine.Prelude.{
  String, Option, none, some, List, [], ◌∷◌, ◌++◌, map, Bool, true, false, not, ◌&&◌, ◌||◌, ltb,
  length, is_empty, keep, some_of, truthy, or_else, ◌==◌, head?,
}
use tore_legal_data_engine.Prelude.Keys.{has}
use tore_legal_data_engine.Prelude.Text.{is_blank, trim, utf16_length}
use tore_legal_data_engine.Prelude.Result.{is_ok}
use tore_legal_data_engine.Domain.Enums.{document, article, same_type}
use tore_legal_data_engine.Domain.Entities.{FlatNode, LegalDocument, LegalDocumentVersion}
use tore_legal_data_engine.Domain.Hierarchy.{assert_legal_node_hierarchy, flatten_legal_nodes}

abbrev pub reason_if : Bool → String → List String
reason_if true reason = reason ∷ []
reason_if false reason = []

-- The loop over a `Set` of locators that stops at a repetition.
unfoldable pub repeats : List String → List String → Bool
repeats seen [] = false
repeats seen (x ∷ xs) = has x seen || repeats (x ∷ seen) xs

-- A document type is always given, so `missing_act_type` is never reported.
unfoldable pub title_missing : LegalDocument → Bool
unfolding trim
title_missing d = d.title == "" || (ltb (utf16_length (trim d.title)) 3 || (d.title == "Untitled"))

unfoldable pub has_malformed_numbering : List FlatNode → Bool
has_malformed_numbering nodes =
    some_of
      (λ n.
        same_type n.node_type article && (not (truthy n.article) || (or_else n.article "" == "0")))
      nodes

-- The checks on the first version.
unfoldable pub version_reasons : LegalDocumentVersion → List String
version_reasons version =
    let flat = flatten_legal_nodes version.nodes in
    reason_if (not (is_ok (assert_legal_node_hierarchy version.nodes))) "broken_article_hierarchy"
    ++ (reason_if (is_empty (keep (λ n. same_type n.node_type article) flat))
          "no_recognizable_provisions"
        ++ (reason_if (ltb (length flat) 2) "suspiciously_low_node_count"
            ++ (reason_if (repeats [] (map (λ n. n.source_locator) flat)) "duplicate_locators"
                ++ (reason_if (has_malformed_numbering flat) "malformed_numbering"
                    ++ reason_if
                        (is_empty (
                          keep (λ n. not (same_type n.node_type document) && not (is_blank n.text))
                            flat))
                        "empty_legal_text"))))

abbrev pub first_version_reasons : Option LegalDocumentVersion → List String
first_version_reasons none = "missing_version" ∷ []
first_version_reasons (some version) = version_reasons version

-- The reasons of `assessParseConfidence`; the result is ok exactly when there is none.
unfoldable pub confidence_reasons : LegalDocument → List String
confidence_reasons d =
    reason_if (title_missing d) "missing_title" ++ first_version_reasons (head? d.versions)
