-- ===== src/Domain/Hierarchy/Accepts.antt =====
-- `index` accepts exactly the well-formed trees.
use tore_legal_data_engine.Prelude.{
  String, Option, some, none, List, [], ◌∷◌, map, ◌≡◌, refl, arith, All, false, map-append, ◌↔◌,
  same_opt_iff, All-append, All-of_append,
}
use tore_legal_data_engine.Prelude.Keys.{Fresh, has, Fresh-nil_iff}
use tore_legal_data_engine.Prelude.Result.{ok, bind-eq-ok}
use tore_legal_data_engine.Domain.Entities.{FlatNode, LegalNodes, nil, cons, legal_node}
use tore_legal_data_engine.Domain.Hierarchy.{Indexed, enter, index, flatten_legal_nodes}
use tore_legal_data_engine.Domain.Hierarchy.Spec.{FollowsTree, IsNamed, IsWellFormed}
use tore_legal_data_engine.Domain.Hierarchy.Entries.{Entry, entries, enter_all, index-eq-enter_all}

abbrev added : FlatNode → Indexed → Indexed
added d s = record { ids = d.id ∷ s.ids; locators = d.source_locator ∷ s.locators }

-- What the checks on one node establish.
record Admits (d : FlatNode) (p : Option String) (s : Indexed) : Type 0 where
  new_id : has d.id s.ids ≡ false
  parent : d.parent_id ≡ p
  new_locator : has d.source_locator s.locators ≡ false
  named : IsNamed d

enter-Admits :
    (d : FlatNode) (p : Option String) (s t : Indexed)
    → enter d p s ≡ ok t
    → Admits d p s × (t ≡ added d s)
unfolding enter
enter-Admits d p s t h = ground (arith, same_opt_iff d.parent_id p)

Admits-enter :
    (d : FlatNode) (p : Option String) (s : Indexed) → Admits d p s → enter d p s ≡ ok (added d s)
unfolding enter
Admits-enter d p s a =
    rw (a.new_id, (same_opt_iff d.parent_id p).1 a.parent, a.new_locator, a.named.0, a.named.1)

record Fits (es : List Entry) (s : Indexed) : Type 0 where
  fresh_ids : Fresh s.ids (map (λ e. e.1.id) es)
  fresh_locators : Fresh s.locators (map (λ e. e.1.source_locator) es)
  parents : All (λ e. e.1.parent_id ≡ e.0) es
  named : All (λ e. IsNamed e.1) es

enter_all-Fits : (es : List Entry) (s t : Indexed) → enter_all es s ≡ ok t → Fits es s
unfolding enter_all
enter_all-Fits [] s t h = record { fresh_ids = tt; fresh_locators = tt; parents = tt; named = tt }
enter_all-Fits ((p, d) ∷ es) s t h =
    let (u, first, rest) = bind-eq-ok (enter d p s) _ h in
    let (a, same) = enter-Admits d p s u first in
    let f = enter_all-Fits es (added d s) t (rw same at rest) in
    record {
      fresh_ids = (a.new_id, f.fresh_ids);
      fresh_locators = (a.new_locator, f.fresh_locators);
      parents = (a.parent, f.parents);
      named = (a.named, f.named);
    }

Fits-enter_all :
    (es : List Entry) (s : Indexed) → Fits es s → (t : Indexed) × (enter_all es s ≡ ok t)
unfolding enter_all
Fits-enter_all [] s f = (s, refl)
Fits-enter_all ((p, d) ∷ es) s f =
    let a : Admits d p s = record {
      new_id = f.fresh_ids.0;
      parent = f.parents.0;
      new_locator = f.fresh_locators.0;
      named = f.named.0;
    } in
    let rest : Fits es (added d s) = record {
      fresh_ids = f.fresh_ids.1;
      fresh_locators = f.fresh_locators.1;
      parents = f.parents.1;
      named = f.named.1;
    } in
    rw (Admits-enter d p s a) (Fits-enter_all es (added d s) rest)

module _ {A : Type 0} (f : FlatNode → A) where
  map-entries :
      (nodes : LegalNodes) (p : Option String)
      → map (λ e. f e.1) (entries nodes p) ≡ map f (flatten_legal_nodes nodes)
  unfolding entries flatten_legal_nodes
  map-entries nil p = refl
  map-entries (cons (legal_node d children) siblings) p =
      simp (map-append, map-entries children (some d.id), map-entries siblings p)

module _ (P : FlatNode → Type 0) where
  All-entries :
      (nodes : LegalNodes) (p : Option String)
      → All (λ e. P e.1) (entries nodes p) ↔ All P (flatten_legal_nodes nodes)
  unfolding entries flatten_legal_nodes
  All-entries nil p = (λ h. tt, λ h. tt)
  All-entries (cons (legal_node d children) siblings) p =
      let (to, from) = All-entries children (some d.id) in
      let (to', from') = All-entries siblings p in
      (
        λ h.
            let (a, b) = All-of_append _ (entries children (some d.id)) _ h.1 in
            (h.0, All-append P (flatten_legal_nodes children) _ (to a) (to' b)),
        λ h.
            let (a, b) = All-of_append P (flatten_legal_nodes children) _ h.1 in
            (h.0, All-append _ (entries children (some d.id)) _ (from a) (from' b)),
      )

FollowsTree-entries :
    (nodes : LegalNodes) (p : Option String)
    → All (λ e. e.1.parent_id ≡ e.0) (entries nodes p) ↔ FollowsTree p nodes
unfolding entries
FollowsTree-entries nil p = (λ h. tt, λ h. tt)
FollowsTree-entries (cons (legal_node d children) siblings) p =
    let (to, from) = FollowsTree-entries children (some d.id) in
    let (to', from') = FollowsTree-entries siblings p in
    (
      λ h. let (a, b) = All-of_append _ (entries children (some d.id)) _ h.1 in (h.0, to a, to' b),
      λ h. (h.0, All-append _ (entries children (some d.id)) _ (from h.1) (from' h.2)),
    )

abbrev pub unindexed : Indexed
unindexed = record { ids = []; locators = [] }

-- `index` over a whole tree ends without an error exactly when the tree is well formed.
pub index-IsWellFormed :
    (nodes : LegalNodes) (t : Indexed) → index nodes none unindexed ≡ ok t → IsWellFormed nodes
index-IsWellFormed nodes t h =
    let f = enter_all-Fits (entries nodes none) unindexed t (rw index-eq-enter_all at h) in
    record {
      distinct_ids = (Fresh-nil_iff _).0 (rw (map-entries (λ n. n.id) nodes none) at f.fresh_ids);
      distinct_locators =
          (Fresh-nil_iff _).0
            (rw (map-entries (λ n. n.source_locator) nodes none) at f.fresh_locators);
      follows_tree = (FollowsTree-entries nodes none).0 f.parents;
      named = (All-entries IsNamed nodes none).0 f.named;
    }

pub IsWellFormed-index :
    (nodes : LegalNodes) → IsWellFormed nodes → (t : Indexed) × (index nodes none unindexed ≡ ok t)
IsWellFormed-index nodes w =
    let f : Fits (entries nodes none) unindexed = record {
      fresh_ids = rw (map-entries (λ n. n.id) nodes none) ((Fresh-nil_iff _).1 w.distinct_ids);
      fresh_locators =
          rw (map-entries (λ n. n.source_locator) nodes none)
            ((Fresh-nil_iff _).1 w.distinct_locators);
      parents = (FollowsTree-entries nodes none).1 w.follows_tree;
      named = (All-entries IsNamed nodes none).1 w.named;
    } in
    rw index-eq-enter_all (Fits-enter_all (entries nodes none) unindexed f)
