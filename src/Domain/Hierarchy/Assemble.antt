-- ===== src/Domain/Hierarchy/Assemble.antt =====
-- `assembleLegalNodeTree`: rows with parent ids become a tree again. The source fills the `children`
-- arrays of shared objects; here they are lists by id, read as trees when all are filled.
use tore_legal_data_engine.Prelude.{
  ℕ, zero, suc, ◌+◌, String, Option, none, some, List, [], ◌∷◌, ◌++◌, Bool, true, false, ◌&&◌,
  if◌then◌else◌, truthy, or_else, length,
}
use tore_legal_data_engine.Prelude.Maps.{StringMap, get, set}
use tore_legal_data_engine.Domain.Entities.{FlatNode, LegalNodes, nil, cons, legal_node}

-- `byId`: of rows with one id the last is kept, at the place of the first.
unfoldable pub index_by_id : List FlatNode → StringMap FlatNode → StringMap FlatNode
index_by_id [] m = m
index_by_id (n ∷ ns) m = index_by_id ns (set n.id n m)

abbrev pub values : StringMap FlatNode → List FlatNode
values [] = []
values ((k, n) ∷ m) = n ∷ values m

-- The children arrays by id, and `roots`.
pub record Linking : Type 0 where
  pub children : StringMap (List FlatNode)
  pub roots : List FlatNode

abbrev pub present : Option FlatNode → Bool
present none = false
present (some n) = true

-- `node.parentId && byId.has(node.parentId)`
unfoldable pub has_parent : StringMap FlatNode → FlatNode → Bool
has_parent m n = truthy n.parent_id && present (get (or_else n.parent_id "") m)

abbrev pub children_of : String → StringMap (List FlatNode) → List FlatNode
children_of k c = or_else (get k c) []

-- One round of the loop.
unfoldable pub link : StringMap FlatNode → FlatNode → Linking → Linking
unfolding has_parent
link m n l =
    if has_parent m n
    then (let parent = or_else n.parent_id "" in
        record l { children = set parent (children_of parent l.children ++ n ∷ []) l.children })
    else record l { roots = l.roots ++ n ∷ [] }

unfoldable pub link_all : StringMap FlatNode → List FlatNode → Linking → Linking
unfolding link
link_all m [] l = l
link_all m (n ∷ ns) l = link_all m ns (link m n l)

-- The trees under some nodes, down to a depth.
unfoldable pub read_trees : ℕ → StringMap (List FlatNode) → List FlatNode → LegalNodes
read_trees zero c ns = nil
read_trees (suc f) c [] = nil
read_trees (suc f) c (n ∷ ns) =
    cons (legal_node n (read_trees f c (children_of n.id c))) (read_trees (suc f) c ns)

-- No node is under more nodes than there are, so the depth is enough.
unfoldable pub assemble_legal_node_tree : List FlatNode → LegalNodes
unfolding index_by_id link_all read_trees
assemble_legal_node_tree flat =
    let m = index_by_id flat [] in
    let l = link_all m (values m) (record { children = []; roots = [] }) in
    read_trees (length flat + 1) l.children l.roots
