-- ===== src/Domain/Hierarchy/Acyclic.antt =====
-- `assertAcyclic` on a tree whose ids are distinct.
use tore_legal_data_engine.Prelude.{
  String, List, [], ◌∷◌, ◌++◌, ◌≡◌, refl, ap, arith, false, map-append, Bool-cases, inl, inr,
  eq_refl,
}
use tore_legal_data_engine.Prelude.Keys.{
  has, has-append, Distinct, Apart, Apart-cons, Apart-of_append, Distinct-of_append, Apart-nil,
  without, without_of_apart,
}
use tore_legal_data_engine.Prelude.Result.{ok}
use tore_legal_data_engine.Domain.Entities.{FlatNode, LegalNodes, nil, cons, legal_node}
use tore_legal_data_engine.Domain.Hierarchy.{walk, assert_acyclic, flatten_legal_nodes}
use tore_legal_data_engine.Domain.Hierarchy.Spec.{ids}

ids-cons :
    (d : FlatNode) (children siblings : LegalNodes)
    → ids (cons (legal_node d children) siblings) ≡ d.id ∷ (ids children ++ ids siblings)
unfolding flatten_legal_nodes
ids-cons d children siblings =
    ap (λ l. d.id ∷ l)
      (map-append (λ (n : FlatNode). n.id) (flatten_legal_nodes children)
        (flatten_legal_nodes siblings))

-- A walk returns with the `visiting` set that it was called with.
walk_returns :
    (nodes : LegalNodes) (visiting visited : List String)
    → Distinct (ids nodes)
    → Apart visiting (ids nodes)
    → (done : List String) × (walk nodes (record { visiting = visiting; visited = visited })
        ≡ ok (record { visiting = visiting; visited = done }))
unfolding walk without
walk_returns nil visiting visited dis apart = (visited, refl)
walk_returns (cons (legal_node d children) siblings) visiting visited dis apart =
    let (fresh, dis') = rw ids-cons at dis in
    let (new, apart') = rw ids-cons at apart in
    let (dc, ds) = Distinct-of_append (ids children) (ids siblings) dis' in
    let (ac, as') = Apart-of_append visiting (ids children) (ids siblings) apart' in
    let below : has d.id (ids children) ≡ false =
      ground (arith, has-append d.id (ids children) (ids siblings)) in
    let (inside, walked) =
      walk_returns children (d.id ∷ visiting) visited dc
        (Apart-cons d.id visiting (ids children) below ac) in
    elim (Bool-cases (has d.id visited)) [
      | inl old ↦ rw (new, old) (walk_returns siblings visiting visited ds as')
      | inr young ↦
          rw (new, young, walked, without)
            (rw (eq_refl d.id, without_of_apart d.id visiting new)
              (walk_returns siblings visiting (d.id ∷ inside) ds as'))
    ]

-- On a tree with distinct ids no walk meets a node that it is inside of.
pub assert_acyclic_of_Distinct :
    (nodes : LegalNodes) → Distinct (ids nodes) → assert_acyclic nodes ≡ ok tt
unfolding assert_acyclic
assert_acyclic_of_Distinct nodes dis =
    let (done, walked) = walk_returns nodes [] [] dis (Apart-nil (ids nodes)) in rw walked
