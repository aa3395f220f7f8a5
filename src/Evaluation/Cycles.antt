-- ===== src/Evaluation/Cycles.antt =====
-- The walk of `detectCycles` to a node's ancestors ends.
use tore_legal_data_engine.Prelude.{
  ℕ, zero, suc, ◌+◌, ◌≤◌, ◌<◌, String, none, some, List, [], ◌∷◌, true, ◌||◌, ◌≡◌, ◌≢◌, refl, arith,
  length, or_else, ◌==◌, eq_iff, eq_refl, All, Option-cases, inl, inr,
}
use tore_legal_data_engine.Prelude.Keys.{has, Distinct}
use tore_legal_data_engine.Prelude.Maps.{StringMap, get, set}
use tore_legal_data_engine.Prelude.Pigeon.{length-Distinct}
use tore_legal_data_engine.Domain.Entities.{FlatNode}
use tore_legal_data_engine.Evaluation.Structure.{index_nodes, by_id, comes_again}

abbrev keys : StringMap FlatNode → List String
keys [] = []
keys ((k, n) ∷ m) = k ∷ keys m

-- Every entry stands under its node's id.
abbrev Keyed : StringMap FlatNode → Type 0
Keyed [] = Unit
Keyed ((k, n) ∷ m) = (n.id ≡ k) × Keyed m

Keyed-set : (n : FlatNode) (m : StringMap FlatNode) → Keyed m → Keyed (set n.id n m)
unfolding set
Keyed-set n [] h = (refl, tt)
Keyed-set n ((k, w) ∷ m) h = ground (arith, Keyed-set n m, eq_iff k n.id)

Keyed-index : (ns : List FlatNode) (m : StringMap FlatNode) → Keyed m → Keyed (index_nodes ns m)
unfolding index_nodes
Keyed-index [] m h = h
Keyed-index (n ∷ ns) m h = Keyed-index ns (set n.id n m) (Keyed-set n m h)

Keyed-get :
    (k : String) (n : FlatNode) (m : StringMap FlatNode)
    → Keyed m
    → get k m ≡ some n
    → has n.id (keys m) ≡ true
unfolding get
Keyed-get k n [] h e = absurd (cc)
Keyed-get k n ((j, w) ∷ m) h e = ground (arith, Keyed-get k n m, eq_iff j n.id)

has-set :
    (j k : String) (n : FlatNode) (m : StringMap FlatNode)
    → has j (keys (set k n m)) ≡ (has j (keys m) || (k == j))
unfolding set
has-set j k n [] = ground arith
has-set j k n ((i, w) ∷ m) = ground (arith, has-set j k n m, eq_iff i k, eq_iff i j, eq_iff k j)

length-set :
    (k : String) (n : FlatNode) (m : StringMap FlatNode)
    → length (keys (set k n m)) ≤ length (keys m) + 1
unfolding set
length-set k n [] = omega arith
length-set k n ((i, w) ∷ m) = ground (arith, length-set k n m)

length-index :
    (ns : List FlatNode) (m : StringMap FlatNode)
    → length (keys (index_nodes ns m)) ≤ length (keys m) + length ns
unfolding index_nodes
length-index [] m = omega arith
length-index (n ∷ ns) m = omega (arith, length-index ns (set n.id n m), length-set n.id n m)

has-index_old :
    (k : String) (ns : List FlatNode) (m : StringMap FlatNode)
    → has k (keys m) ≡ true
    → has k (keys (index_nodes ns m)) ≡ true
unfolding index_nodes
has-index_old k [] m h = h
has-index_old k (n ∷ ns) m h =
    has-index_old k ns (set n.id n m) (ground (arith, has-set k n.id n m))

has-index :
    (ns : List FlatNode) (m : StringMap FlatNode)
    → All (λ n. has n.id (keys (index_nodes ns m)) ≡ true) ns
unfolding index_nodes
has-index [] m = tt
has-index (n ∷ ns) m = (
  has-index_old n.id ns (set n.id n m) (ground (arith, has-set n.id n.id n m, eq_refl n.id)),
  has-index ns (set n.id n m),
)

-- With more fuel than keys are left unseen, the walk ends.
comes_again-ends :
    (fuel : ℕ) (m : StringMap FlatNode) (seen : List String) (current : FlatNode)
    → Keyed m
    → Distinct seen
    → All (λ k. has k (keys m) ≡ true) seen
    → has current.id (keys m) ≡ true
    → length (keys m) < fuel + length seen
    → comes_again fuel m seen current ≢ none
unfolding comes_again
comes_again-ends zero m seen current keyed d all here enough e =
    absurd (omega (arith, length-Distinct seen (keys m) d all))
comes_again-ends (suc fuel) m seen current keyed d all here enough e =
    elim (Option-cases (get (or_else current.parent_id "") m)) [
      | inl missing ↦ ground arith
      | inr (parent, found) ↦
          let again = comes_again-ends fuel m (current.id ∷ seen) parent keyed in
          ground (arith, again, Keyed-get (or_else current.parent_id "") parent m keyed found)
    ]

walks_end :
    (fuel : ℕ) (m : StringMap FlatNode) (ns : List FlatNode)
    → Keyed m
    → length (keys m) < fuel
    → All (λ n. has n.id (keys m) ≡ true) ns
    → All (λ n. comes_again fuel m [] n ≢ none) ns
walks_end fuel m [] keyed enough h = tt
walks_end fuel m (n ∷ ns) keyed enough (h, hs) =
    (comes_again-ends fuel m [] n keyed tt tt h (omega arith), walks_end fuel m ns keyed enough hs)

-- The search for cycles never runs out of fuel: from each node, the walk to its ancestors comes to
-- an end or round to an id that it has met, within two rounds more than there are nodes.
pub detect_cycles-ends :
    (nodes : List FlatNode)
    → All (λ n. comes_again (length nodes + 2) (by_id nodes) [] n ≢ none) nodes
detect_cycles-ends nodes =
    walks_end (length nodes + 2) (by_id nodes) nodes (Keyed-index nodes [] tt)
      (omega (arith, length-index nodes [])) (has-index nodes [])
