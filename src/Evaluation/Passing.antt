-- ===== src/Evaluation/Passing.antt =====
-- What a structure report with the result PASS says of the nodes.
use tore_legal_data_engine.Prelude.{
  String, none, some, List, [], ◌∷◌, ◌++◌, Bool, true, false, ◌≡◌, arith, truthy, or_else, ◌==◌,
  eq_iff, All, All-mono, subst, ℕ, zero, suc, ◌≢◌, refl, length, ◌+◌, ◌∙◌, sym, ap, Bool-cases,
  Option-cases, inl, inr,
}
use tore_legal_data_engine.Prelude.Keys.{unique-eq-nil}
use tore_legal_data_engine.Prelude.Maps.{StringMap, get, set, get-set}
use tore_legal_data_engine.Evaluation.Cycles.{detect_cycles-ends}
use tore_legal_data_engine.Domain.Entities.{FlatNode}
use tore_legal_data_engine.Evaluation.ParentTypes.{parent_type_allowed}
use tore_legal_data_engine.Evaluation.Structure.{
  Findings, by_id, empty_findings, check_node, check_nodes, check_parent, check_locator,
  check_version, count_document, is_root_document, detect_cycles, cyclic_locators, comes_again,
  summarize, index_nodes, evaluate_version_structure,
}

-- A node with a parent has it among the nodes, and its type may stand under the parent's; without
-- one, its type may stand at the top.
abbrev pub HasPlace : StringMap FlatNode → FlatNode → Bool → Type 0
HasPlace m n true =
    (parent : FlatNode) × (get (or_else n.parent_id "") m ≡ some parent)
    × (parent_type_allowed n.node_type (some parent.node_type) ≡ true)
HasPlace m n false = parent_type_allowed n.node_type none ≡ true

abbrev pub IsPlaced : StringMap FlatNode → String → FlatNode → Type 0
IsPlaced m version_id n = (n.document_version_id ≡ version_id) × HasPlace m n (truthy n.parent_id)

-- Nothing is found yet.
abbrev Clean : Findings → Type 0
Clean f =
    (f.orphans ≡ [])
    × (f.invalid_parents ≡ [])
    × (f.wrong_version ≡ [])
    × (f.incompatible_types ≡ [])
    × (f.duplicate_locators ≡ [])

snoc-not-nil : (xs : List String) (x : String) → xs ++ x ∷ [] ≡ [] → ⊥
snoc-not-nil [] x h = cc
snoc-not-nil (y ∷ xs) x h = cc

Clean-locator : (n : FlatNode) (f : Findings) → Clean (check_locator n f) → Clean f
unfolding check_locator
Clean-locator n f h = elim (Bool-cases (truthy (get n.source_locator f.seen_locators))) [
  | inl e ↦ absurd (snoc-not-nil f.duplicate_locators n.source_locator (ground arith))
  | inr e ↦ ground arith
]

Clean-version :
    (version_id : String) (n : FlatNode) (f : Findings)
    → Clean (check_version version_id n f)
    → Clean f × (n.document_version_id ≡ version_id)
unfolding check_version
Clean-version version_id n f h = elim (Bool-cases (n.document_version_id == version_id)) [
  | inl e ↦ (ground arith, (eq_iff _ _).0 e)
  | inr e ↦ absurd (snoc-not-nil f.wrong_version n.source_locator (ground arith))
]

Clean-document : (n : FlatNode) (f : Findings) → Clean (count_document n f) → Clean f
unfolding count_document
Clean-document n f h = elim (Bool-cases (is_root_document n)) [
  | inl e ↦ ground arith
  | inr e ↦ ground arith
]

Clean-parent :
    (m : StringMap FlatNode) (n : FlatNode) (f : Findings)
    → Clean (check_parent m n f)
    → Clean f × HasPlace m n (truthy n.parent_id)
unfolding check_parent
Clean-parent m n f h = elim (Bool-cases (truthy n.parent_id)) [
  | inr e ↦ elim (Bool-cases (parent_type_allowed n.node_type none)) [
    | inl a ↦ rw e (ground arith)
    | inr a ↦ absurd (snoc-not-nil f.invalid_parents n.source_locator (ground arith))
  ]
  | inl e ↦ elim (Option-cases (get (or_else n.parent_id "") m)) [
    | inl g ↦ absurd (snoc-not-nil f.orphans n.source_locator (ground arith))
    | inr (p, g) ↦ elim (Bool-cases (parent_type_allowed n.node_type (some p.node_type))) [
      | inl a ↦ rw e (ground arith, (p, g, a))
      | inr a ↦ absurd (snoc-not-nil f.incompatible_types n.source_locator (ground arith))
    ]
  ]
]

Clean-node :
    (m : StringMap FlatNode) (version_id : String) (n : FlatNode) (f : Findings)
    → Clean (check_node m version_id n f)
    → Clean f × IsPlaced m version_id n
unfolding check_node
Clean-node m version_id n f h =
    let h1 = Clean-locator n _ h in
    let (h2, place) = Clean-parent m n _ h1 in
    let h3 = Clean-document n _ h2 in
    let (h4, version) = Clean-version version_id n f h3 in (h4, (version, place))

Clean-nodes :
    (m : StringMap FlatNode) (version_id : String) (ns : List FlatNode) (f : Findings)
    → Clean (check_nodes m version_id ns f)
    → Clean f × All (IsPlaced m version_id) ns
unfolding check_nodes
Clean-nodes m version_id [] f h = (h, tt)
Clean-nodes m version_id (n ∷ ns) f h =
    let (after_node, placed) = Clean-nodes m version_id ns (check_node m version_id n f) h in
    let (before, here) = Clean-node m version_id n f after_node in (before, (here, placed))

-- The walk from a node to its parent, its parent's parent and so on ends at a node without one.
pub data IsRooted (m : StringMap FlatNode) : FlatNode → Type 0 where
  top : (n : FlatNode) → truthy n.parent_id ≡ false → IsRooted m n
  below :
      (n parent : FlatNode)
      → truthy n.parent_id ≡ true
      → get (or_else n.parent_id "") m ≡ some parent
      → IsRooted m parent
      → IsRooted m n

abbrev HasAPlace : StringMap FlatNode → FlatNode → Type 0
HasAPlace m n = HasPlace m n (truthy n.parent_id)

-- A search that ends without coming round has gone up to the top, where every node has its place.
comes_again-IsRooted :
    (fuel : ℕ) (m : StringMap FlatNode) (seen : List String) (n : FlatNode)
    → ((k : String) (p : FlatNode) → get k m ≡ some p → HasAPlace m p)
    → HasAPlace m n
    → comes_again fuel m seen n ≡ some false
    → IsRooted m n
unfolding comes_again
comes_again-IsRooted zero m seen n places place h = absurd (cc)
comes_again-IsRooted (suc fuel) m seen n places place h = elim (Bool-cases (truthy n.parent_id)) [
  | inr e ↦ top n e
  | inl e ↦
      let (p, found, may_stand) : HasPlace m n true = subst (HasPlace m n) e place in
      below n p e found
        (comes_again-IsRooted fuel m (n.id ∷ seen) p places (places _ p found) (ground arith))
]

-- With nothing found, no search came round.
none_come_round :
    (fuel : ℕ) (m : StringMap FlatNode) (ns : List FlatNode)
    → cyclic_locators fuel m ns ≡ []
    → All (λ n. comes_again fuel m [] n ≢ none) ns
    → All (λ n. comes_again fuel m [] n ≡ some false) ns
unfolding cyclic_locators
none_come_round fuel m [] h ends = tt
none_come_round fuel m (n ∷ ns) h (here, ends) = elim (Option-cases (comes_again fuel m [] n)) [
  | inl e ↦ absurd (here e)
  | inr (b, e) ↦ elim (Bool-cases b) [
    | inl round ↦ absurd (ground arith)
    | inr ended ↦ (e ∙ ap some ended, none_come_round fuel m ns (ground arith) ends)
  ]
]

not_found : (k : String) (p : FlatNode) → get k [] ≡ some p → ⊥
unfolding get
not_found k p e = cc

-- What holds of all nodes holds of those in their map.
index_nodes-All :
    (P : FlatNode → Type 0) (ns : List FlatNode) (m : StringMap FlatNode)
    → ((k : String) (p : FlatNode) → get k m ≡ some p → P p)
    → All P ns
    → (k : String) (p : FlatNode) → get k (index_nodes ns m) ≡ some p
    → P p
unfolding index_nodes
index_nodes-All P [] m old h k p g = old k p g
index_nodes-All P (n ∷ ns) m old (here, h) k p g =
    index_nodes-All P ns (set n.id n m)
      (λ j q e. elim (Bool-cases (n.id == j)) [
        | inl same ↦ subst P (ground (arith, get-set n.id j n m)) here
        | inr other ↦ old j q (sym (get-set n.id j n m ∙ rw other refl) ∙ e)
      ])
      h k p g

All-IsRooted :
    (fuel : ℕ) (m : StringMap FlatNode) (ns : List FlatNode)
    → ((k : String) (p : FlatNode) → get k m ≡ some p → HasAPlace m p)
    → All (HasAPlace m) ns
    → All (λ n. comes_again fuel m [] n ≡ some false) ns
    → All (IsRooted m) ns
All-IsRooted fuel m [] places h ends = tt
All-IsRooted fuel m (n ∷ ns) places (p, h) (e, ends) =
    (comes_again-IsRooted fuel m [] n places p e, All-IsRooted fuel m ns places h ends)

-- Where the report's result is PASS, every node belongs to the version and has its place: its parent
-- is a node of the version under which its type may stand, or it has none and may stand at the top;
-- and the walk from each node to its ancestors ends at a node without a parent.
pub evaluate_version_structure-pass :
    (document_id version_id : String) (nodes : List FlatNode)
    → (evaluate_version_structure document_id version_id nodes).pass ≡ true
    → All (IsPlaced (by_id nodes) version_id) nodes × All (IsRooted (by_id nodes)) nodes
unfolding evaluate_version_structure summarize detect_cycles
evaluate_version_structure-pass document_id version_id nodes h =
    let (before, placed) =
      Clean-nodes (by_id nodes) version_id nodes empty_findings (ground arith) in
    let m = by_id nodes in
    let places = All-mono (IsPlaced m version_id) (HasAPlace m) nodes (λ n p. p.1) placed in
    let found = unique-eq-nil (cyclic_locators (length nodes + 2) m nodes) (ground arith) in
    (
      placed,
      All-IsRooted (length nodes + 2) m nodes
          (index_nodes-All (HasAPlace m) nodes [] (λ k p e. absurd (not_found k p e)) places) places
          (none_come_round (length nodes + 2) m nodes found (detect_cycles-ends nodes)),
    )
