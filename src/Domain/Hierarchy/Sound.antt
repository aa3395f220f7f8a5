-- ===== src/Domain/Hierarchy/Sound.antt =====
-- `assertLegalNodeHierarchy` against the specification.
use tore_legal_data_engine.Prelude.{none, ◌≡◌, ◌↔◌}
use tore_legal_data_engine.Prelude.Result.{ok, bind-eq-ok}
use tore_legal_data_engine.Domain.Entities.{LegalNodes}
use tore_legal_data_engine.Domain.Hierarchy.{index, assert_legal_node_hierarchy}
use tore_legal_data_engine.Domain.Hierarchy.Spec.{IsWellFormed}
use tore_legal_data_engine.Domain.Hierarchy.Accepts.{
  unindexed, index-IsWellFormed, IsWellFormed-index,
}
use tore_legal_data_engine.Domain.Hierarchy.Acyclic.{assert_acyclic_of_Distinct}

-- `assertLegalNodeHierarchy` returns without an error exactly when the ids are distinct, the
-- locators are distinct, every `parentId` is the id of the node above (null at the top), and every
-- locator and content hash has a character that is not white space.
pub assert_legal_node_hierarchy_iff :
    (nodes : LegalNodes) → (assert_legal_node_hierarchy nodes ≡ ok tt) ↔ IsWellFormed nodes
unfolding assert_legal_node_hierarchy
assert_legal_node_hierarchy_iff nodes = (
  λ h.
      let (t, indexed, _) = bind-eq-ok (index nodes none unindexed) _ h in
      index-IsWellFormed nodes t indexed,
  λ w.
      let (t, indexed) = IsWellFormed-index nodes w in
      rw indexed (assert_acyclic_of_Distinct nodes w.distinct_ids),
)
