-- ===== src/Evaluation/Structure.antt =====
-- src/application/evaluation/evaluate-version.ts, `evaluateVersionStructure` and `detectCycles`.
use tore_legal_data_engine.Prelude.{
  ℕ, zero, suc, ◌+◌, String, Option, none, some, List, [], ◌∷◌, ◌++◌, Bool, true, false, ◌&&◌,
  if◌then◌else◌, eqb, length, is_empty, truthy, or_else, ◌==◌,
}
use tore_legal_data_engine.Prelude.Keys.{has, unique}
use tore_legal_data_engine.Prelude.Maps.{StringMap, get, set}
use tore_legal_data_engine.Domain.Enums.{document, same_type}
use tore_legal_data_engine.Domain.Entities.{FlatNode}
use tore_legal_data_engine.Evaluation.ParentTypes.{parent_type_allowed}

-- The locals of the loop, and with them the report. `cycles` is filled after the loop.
pub record Findings : Type 0 where
  pub document_parents : ℕ
  pub orphans : List String
  pub invalid_parents : List String
  pub wrong_version : List String
  pub incompatible_types : List String
  pub seen_locators : StringMap String
  pub duplicate_locators : List String

pub record VersionStructureReport : Type 0 where
  pub document_id : String
  pub version_id : String
  pub nodes : ℕ
  pub document_parents : ℕ
  pub orphans : List String
  pub cycles : List String
  pub invalid_parents : List String
  pub wrong_version : List String
  pub incompatible_types : List String
  pub duplicate_locators : List String
  pub pass : Bool

-- `new Map(nodes.map((node) => [node.id, node]))`: of nodes with one id the last is kept.
unfoldable pub index_nodes : List FlatNode → StringMap FlatNode → StringMap FlatNode
index_nodes [] m = m
index_nodes (n ∷ ns) m = index_nodes ns (set n.id n m)

abbrev pub by_id : List FlatNode → StringMap FlatNode
by_id nodes = index_nodes nodes []

abbrev pub empty_findings : Findings
empty_findings = record {
  document_parents = 0;
  orphans = [];
  invalid_parents = [];
  wrong_version = [];
  incompatible_types = [];
  seen_locators = [];
  duplicate_locators = [];
}

-- `if (node.parentId) { … } else if (…) { … }`
unfoldable pub check_parent : StringMap FlatNode → FlatNode → Findings → Findings
check_parent m node f =
    if truthy node.parent_id
    then elim (get (or_else node.parent_id "") m) [
      | none ↦ record f {
        orphans = f.orphans ++ node.source_locator ∷ [];
        invalid_parents = f.invalid_parents ++ node.source_locator ∷ [];
      }
      | some parent ↦
          if parent_type_allowed node.node_type (some parent.node_type)
          then f
          else record f { incompatible_types = f.incompatible_types ++ node.source_locator ∷ [] }
    ]
    else if parent_type_allowed node.node_type none
    then f
    else record f { invalid_parents = f.invalid_parents ++ node.source_locator ∷ [] }

unfoldable pub check_locator : FlatNode → Findings → Findings
check_locator node f =
    if truthy (get node.source_locator f.seen_locators)
    then record f { duplicate_locators = f.duplicate_locators ++ node.source_locator ∷ [] }
    else record f { seen_locators = set node.source_locator node.id f.seen_locators }

unfoldable pub check_version : String → FlatNode → Findings → Findings
check_version version_id node f =
    if node.document_version_id == version_id
    then f
    else record f { wrong_version = f.wrong_version ++ node.source_locator ∷ [] }

unfoldable pub is_root_document : FlatNode → Bool
is_root_document node =
    same_type node.node_type document && elim node.parent_id [ none ↦ true | some p ↦ false ]

unfoldable pub count_document : FlatNode → Findings → Findings
count_document node f =
    if is_root_document node then record f { document_parents = f.document_parents + 1 } else f

-- One round of the loop over the nodes.
unfoldable pub check_node : StringMap FlatNode → String → FlatNode → Findings → Findings
unfolding check_parent check_locator check_version count_document is_root_document
check_node m version_id node f =
    check_locator node (check_parent m node (count_document node (check_version version_id node f)))

unfoldable pub check_nodes : StringMap FlatNode → String → List FlatNode → Findings → Findings
unfolding check_node
check_nodes m version_id [] f = f
check_nodes m version_id (n ∷ ns) f = check_nodes m version_id ns (check_node m version_id n f)

-- The `while` loop of `detectCycles` from one node: true if an id comes again. `none` means that
-- the fuel ran out.
unfoldable pub comes_again : ℕ → StringMap FlatNode → List String → FlatNode → Option Bool
comes_again zero m seen current = none
comes_again (suc fuel) m seen current =
    if truthy current.parent_id
    then (if has current.id seen then some true else elim (get (or_else current.parent_id "") m) [
      | none ↦ some false
      | some parent ↦ comes_again fuel m (current.id ∷ seen) parent
    ])
    else some false

-- The locators of the nodes from which the walk upwards comes round.
unfoldable pub cyclic_locators : ℕ → StringMap FlatNode → List FlatNode → List String
unfolding comes_again
cyclic_locators fuel m [] = []
cyclic_locators fuel m (n ∷ ns) =
    let rest = cyclic_locators fuel m ns in
    elim (comes_again fuel m [] n) [ some true ↦ n.source_locator ∷ rest | _ ↦ rest ]

-- The fuel is two more than the number of nodes: the ids met are distinct, and all but the first
-- are keys of the map.
unfoldable pub detect_cycles : List FlatNode → List String
unfolding cyclic_locators unique
detect_cycles nodes = unique (cyclic_locators (length nodes + 2) (by_id nodes) nodes)

-- The report that is returned.
unfoldable pub summarize : String → String → ℕ → Findings → List String → VersionStructureReport
summarize document_id version_id count f loops = record {
  document_id = document_id;
  version_id = version_id;
  nodes = count;
  document_parents = f.document_parents;
  orphans = f.orphans;
  cycles = loops;
  invalid_parents = f.invalid_parents;
  wrong_version = f.wrong_version;
  incompatible_types = f.incompatible_types;
  duplicate_locators = f.duplicate_locators;
  pass =
      eqb f.document_parents 1
      && (is_empty f.orphans
          && (is_empty loops
              && (is_empty f.invalid_parents
                  && (is_empty f.wrong_version
                      && (is_empty f.incompatible_types && is_empty f.duplicate_locators)))));
}

unfoldable pub evaluate_version_structure : String → String → List FlatNode → VersionStructureReport
evaluate_version_structure document_id version_id nodes =
    summarize document_id version_id (length nodes)
      (check_nodes (by_id nodes) version_id nodes empty_findings) (detect_cycles nodes)
