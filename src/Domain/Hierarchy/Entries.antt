-- ===== src/Domain/Hierarchy/Entries.antt =====
-- `index` enters the nodes one by one in preorder, each with its parent in the tree.
use tore_legal_data_engine.Prelude.{
  String, Option, some, List, [], ◌∷◌, ◌++◌, ◌≡◌, refl, ap, ◌∙◌, sym,
}
use tore_legal_data_engine.Prelude.Result.{Result, ok, err, ◌>>=◌}
use tore_legal_data_engine.Domain.Entities.{FlatNode, LegalNodes, nil, cons, legal_node}
use tore_legal_data_engine.Domain.Hierarchy.{Indexed, enter, index}

abbrev pub Entry : Type 0
Entry = Option String × FlatNode

unfoldable pub entries : LegalNodes → Option String → List Entry
entries nil p = []
entries (cons (legal_node d children) siblings) p =
    (p, d) ∷ (entries children (some d.id) ++ entries siblings p)

unfoldable pub enter_all : List Entry → Indexed → Result Indexed
enter_all [] s = ok s
enter_all ((p, d) ∷ es) s = enter d p s >>= λ t. enter_all es t

bind_assoc :
    {A B C : Type 0} (m : Result A) (f : A → Result B) (g : B → Result C)
    → (m >>= f >>= g) ≡ (m >>= λ a. f a >>= g)
bind_assoc (ok a) f g = refl
bind_assoc (err e) f g = refl

bind-ext :
    {A B : Type 0} (m : Result A) (f g : A → Result B)
    → ((a : A) → f a ≡ g a)
    → (m >>= f) ≡ (m >>= g)
bind-ext (ok a) f g h = h a
bind-ext (err e) f g h = refl

enter_all-append :
    (xs ys : List Entry) (s : Indexed)
    → enter_all (xs ++ ys) s ≡ (enter_all xs s >>= λ t. enter_all ys t)
unfolding enter_all
enter_all-append [] ys s = refl
enter_all-append ((p, d) ∷ xs) ys s =
    bind-ext (enter d p s) _ _ (λ t. enter_all-append xs ys t) ∙ sym (bind_assoc (enter d p s) _ _)

pub index-eq-enter_all :
    (nodes : LegalNodes) (p : Option String) (s : Indexed)
    → index nodes p s ≡ enter_all (entries nodes p) s
unfolding index entries enter_all
index-eq-enter_all nil p s = refl
index-eq-enter_all (cons (legal_node d children) siblings) p s = bind-ext (enter d p s) _ _ (λ t.
    ap (λ m. m >>= λ u. index siblings p u) (index-eq-enter_all children (some d.id) t)
    ∙ bind-ext (enter_all (entries children (some d.id)) t) _ _
        (λ u. index-eq-enter_all siblings p u)
    ∙ sym (enter_all-append (entries children (some d.id)) (entries siblings p) t))
