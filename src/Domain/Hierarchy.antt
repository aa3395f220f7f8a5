-- ===== src/Domain/Hierarchy.antt =====
-- src/domain/services/legal-node-hierarchy.ts: the checks on a tree of nodes, and flattening.
pub mod Spec
pub mod Entries
pub mod Accepts
pub mod Acyclic
pub mod Sound
pub mod Assemble
use tore_legal_data_engine.Prelude.{
  String, Option, none, some, List, [], ◌∷◌, ◌++◌, Bool, if◌then◌else◌, same_opt, not,
}
use tore_legal_data_engine.Prelude.Keys.{has, without}
use tore_legal_data_engine.Prelude.Text.{is_blank, show_opt, ◌<>◌}
use tore_legal_data_engine.Prelude.Result.{Result, ok, err, invariant_error, refuse_if, ◌>>=◌, ◌>>◌}
use tore_legal_data_engine.Domain.Entities.{FlatNode, LegalNodes, nil, cons, legal_node}

-- The closure variables `byId` (its keys) and `locators` of `assertLegalNodeHierarchy`.
pub record Indexed : Type 0 where
  pub ids : List String
  pub locators : List String

-- The checks of `index` on one node, in the source's order, and its two additions.
unfoldable pub enter : FlatNode → Option String → Indexed → Result Indexed
enter node parent_id s = do
  refuse_if (has node.id s.ids) ("Duplicate node id: " <> node.id)
  refuse_if (not (same_opt node.parent_id parent_id)) (
      "Node "
      <> node.id
      <> " parentId "
      <> show_opt node.parent_id
      <> " does not match tree parent "
      <> show_opt parent_id)
  refuse_if (has node.source_locator s.locators)
      ("Duplicate sourceLocator within version: " <> node.source_locator)
  refuse_if (is_blank node.source_locator) ("Node " <> node.id <> " is missing sourceLocator")
  refuse_if (is_blank node.content_hash) ("Node " <> node.id <> " is missing contentHash")
  ok (record { ids = node.id ∷ s.ids; locators = node.source_locator ∷ s.locators })

-- `index` over a list of siblings: each node is entered before its children, then its siblings.
unfoldable pub index : LegalNodes → Option String → Indexed → Result Indexed
index nil parent_id s = ok s
index (cons (legal_node node children) siblings) parent_id s = do
  entered ← enter node parent_id s
  below ← index children (some node.id) entered
  index siblings parent_id below

-- `visiting` and `visited` of `assertAcyclic`.
pub record Walked : Type 0 where
  pub visiting : List String
  pub visited : List String

-- `walk` of `assertAcyclic`, over a list of siblings.
unfoldable pub walk : LegalNodes → Walked → Result Walked
unfolding without
walk nil s = ok s
walk (cons (legal_node node children) siblings) s = do
  refuse_if (has node.id s.visiting) ("Cycle detected at node " <> node.id)
  let inside = walk children (record s { visiting = node.id ∷ s.visiting })
  left ←
      (if has node.id s.visited then ok s else do
        w ← inside
        ok (record { visiting = without node.id w.visiting; visited = node.id ∷ w.visited }))
  walk siblings left

unfoldable pub assert_acyclic : LegalNodes → Result (Unit {0})
unfolding walk
assert_acyclic roots = do w ← walk roots (record { visiting = []; visited = [] }); ok tt

unfoldable pub assert_legal_node_hierarchy : LegalNodes → Result (Unit {0})
unfolding index enter assert_acyclic
assert_legal_node_hierarchy nodes = do
  i ← index nodes none (record { ids = []; locators = [] })
  assert_acyclic nodes

-- `flattenLegalNodes`: the nodes in preorder.
unfoldable pub flatten_legal_nodes : LegalNodes → List FlatNode
flatten_legal_nodes nil = []
flatten_legal_nodes (cons (legal_node node children) siblings) =
    node ∷ (flatten_legal_nodes children ++ flatten_legal_nodes siblings)
