-- ===== src/Examples/Trees.antt =====
-- The checks on trees and on documents, on one small law.
use tore_legal_data_engine.Prelude.{
  List, ◌+◌, ◌≢◌, length, All, some, none, true, false, some_of, [], ◌∷◌, ◌≡◌, ◌↔◌, refl,
}
use tore_legal_data_engine.Prelude.Text.{is_blank, trim, before_caret, parse_natural, join}
use tore_legal_data_engine.Prelude.Keys.{without, unique}
use tore_legal_data_engine.Prelude.Maps.{get, set}
use tore_legal_data_engine.Prelude.Result.{ok}
use tore_legal_data_engine.Domain.Enums.{VersionStatus}
use tore_legal_data_engine.Domain.Entities.{
  FlatNode, LegalDocument, LegalNodes, nil, cons, legal_node,
}
use tore_legal_data_engine.Domain.Hierarchy.{
  assert_legal_node_hierarchy, flatten_legal_nodes, index, enter, walk, assert_acyclic,
}
use tore_legal_data_engine.Domain.Hierarchy.Spec.{IsWellFormed}
use tore_legal_data_engine.Domain.Hierarchy.Sound.{assert_legal_node_hierarchy_iff}
use tore_legal_data_engine.Regex.{
  test, search_text, search_from, match_at, match, match_char, char_step, first_of_two,
  repeat_greedy,
}
use tore_legal_data_engine.Evaluation.Cycles.{detect_cycles-ends}
use tore_legal_data_engine.Evaluation.Passing.{IsPlaced, IsRooted, evaluate_version_structure-pass}
use tore_legal_data_engine.Evaluation.ParentTypes.{parent_type_allowed}
use tore_legal_data_engine.Evaluation.Structure.{
  check_parent, check_locator, check_version, count_document, is_root_document, by_id,
  evaluate_version_structure, summarize, check_nodes, check_node, index_nodes, comes_again,
  cyclic_locators, detect_cycles,
}
use tore_legal_data_engine.Publication.Patterns.{locator_re, chrome_only_re}
use tore_legal_data_engine.Publication.Confidence.{
  confidence_reasons, title_missing, version_reasons, repeats, has_malformed_numbering,
}
use tore_legal_data_engine.Publication.SpecialLaws.{special_law_reasons}
use tore_legal_data_engine.Publication.Gate.{
  structure_reasons, is_chrome, is_structural, gate_reasons, assess_publication_gate, passed,
}
use tore_legal_data_engine.Publication.Laws.{IsPublishable, gate_passed-IsPublishable}
use tore_legal_data_engine.Examples.Fixtures.{tree, root, first_article, version_at, law_of}

assert_legal_node_hierarchy_iff_example :
    (assert_legal_node_hierarchy tree ≡ ok tt) ↔ IsWellFormed tree
assert_legal_node_hierarchy_iff_example = assert_legal_node_hierarchy_iff tree

abbrev short : LegalNodes
short = cons (legal_node root (cons (legal_node first_article nil) nil)) nil

abbrev statute : LegalDocument
statute =
    law_of
      (record (version_at "v1" 1 (some "10") none VersionStatus.published) { nodes = short } ∷ [])

statute-confidence : confidence_reasons statute ≡ []
unfolding confidence_reasons title_missing version_reasons assert_legal_node_hierarchy
    flatten_legal_nodes repeats has_malformed_numbering walk without is_blank trim index enter
    assert_acyclic
statute-confidence = refl

statute-hierarchy : assert_legal_node_hierarchy short ≡ ok tt
unfolding assert_legal_node_hierarchy walk without is_blank index enter assert_acyclic
statute-hierarchy = refl

statute-structure :
    structure_reasons (evaluate_version_structure "d1" "v1" (flatten_legal_nodes short)) ≡ []
unfolding structure_reasons evaluate_version_structure summarize check_nodes check_node get set
    index_nodes parent_type_allowed comes_again cyclic_locators detect_cycles flatten_legal_nodes
    before_caret parse_natural join
statute-structure = refl

located-doc : test locator_re "doc" ≡ true
unfolding test search_text search_from match_at match match_char char_step first_of_two
    repeat_greedy locator_re
located-doc = refl

located-article : test locator_re "art-1" ≡ true
unfolding test search_text search_from match_at match match_char char_step first_of_two
    repeat_greedy locator_re
located-article = refl

statute-chrome : some_of is_chrome (flatten_legal_nodes short) ≡ false
unfolding is_chrome flatten_legal_nodes trim test search_text search_from match_at match match_char
    char_step first_of_two repeat_greedy chrome_only_re
statute-chrome = refl

statute-special : special_law_reasons (some "1") statute (flatten_legal_nodes short) ≡ []
unfolding special_law_reasons
statute-special = refl

statute-passed : assess_publication_gate statute "abc" "abc" (some "1") ≡ passed
unfolding assess_publication_gate gate_reasons
statute-passed =
    rw (statute-confidence, statute-hierarchy, statute-structure, statute-chrome, statute-special)
      (unfold flatten_legal_nodes repeats is_structural unique in
        rw (located-doc, located-article) refl)

gate_passed-IsPublishable_example : IsPublishable statute "abc" "abc" (some "1")
gate_passed-IsPublishable_example =
    gate_passed-IsPublishable statute "abc" "abc" (some "1") statute-passed

-- Two nodes that are each other's parents.
abbrev entangled : List FlatNode
entangled =
    record first_article { parent_id = some "n2" }
    ∷ record first_article { id = "n2"; parent_id = some "n1" }
    ∷ []

detect_cycles-ends_example :
    All (λ n. comes_again (length entangled + 2) (by_id entangled) [] n ≢ none) entangled
detect_cycles-ends_example = detect_cycles-ends entangled

statute-pass : (evaluate_version_structure "d1" "" (flatten_legal_nodes short)).pass ≡ true
unfolding evaluate_version_structure summarize check_nodes check_node check_parent check_locator
    check_version count_document is_root_document get set index_nodes parent_type_allowed
    comes_again cyclic_locators detect_cycles flatten_legal_nodes
statute-pass = refl

evaluate_version_structure-pass_example :
    All (IsPlaced (by_id (flatten_legal_nodes short)) "") (flatten_legal_nodes short)
    × All (IsRooted (by_id (flatten_legal_nodes short))) (flatten_legal_nodes short)
evaluate_version_structure-pass_example =
    evaluate_version_structure-pass "d1" "" (flatten_legal_nodes short) statute-pass
