-- ===== src/Domain/Hierarchy/Spec.antt =====
-- What a tree must satisfy, stated without the checks' sets: the reference for
-- `assertLegalNodeHierarchy`.
use tore_legal_data_engine.Prelude.{String, Option, none, some, List, map, ◌≡◌, false, All}
use tore_legal_data_engine.Prelude.Keys.{Distinct}
use tore_legal_data_engine.Prelude.Text.{is_blank}
use tore_legal_data_engine.Domain.Entities.{FlatNode, LegalNodes, nil, cons, legal_node}
use tore_legal_data_engine.Domain.Hierarchy.{flatten_legal_nodes}

-- Every node's `parentId` is the id of the node above it, and null at the top.
abbrev pub FollowsTree : Option String → LegalNodes → Type 0
FollowsTree parent nil = Unit
FollowsTree parent (cons (legal_node node children) siblings) =
    (node.parent_id ≡ parent) × FollowsTree (some node.id) children × FollowsTree parent siblings

-- A node has a locator and a content hash that are not blank.
abbrev pub IsNamed : FlatNode → Type 0
IsNamed node = (is_blank node.source_locator ≡ false) × (is_blank node.content_hash ≡ false)

abbrev pub ids : LegalNodes → List String
ids nodes = map (λ n. n.id) (flatten_legal_nodes nodes)

abbrev pub locators : LegalNodes → List String
locators nodes = map (λ n. n.source_locator) (flatten_legal_nodes nodes)

pub record IsWellFormed (nodes : LegalNodes) : Type 0 where
  pub distinct_ids : Distinct (ids nodes)
  pub distinct_locators : Distinct (locators nodes)
  pub follows_tree : FollowsTree none nodes
  pub named : All IsNamed (flatten_legal_nodes nodes)
