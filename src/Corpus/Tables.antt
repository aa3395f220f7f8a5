-- ===== src/Corpus/Tables.antt =====
-- The versions table under `upsert`: identifiers stay distinct, and superseding row after row leaves
-- no published version.
use tore_legal_data_engine.Prelude.{
  String, List, [], ◌∷◌, ◌++◌, map, Bool, false, not, ◌&&◌, ◌||◌, ◌==◌, ◌≡◌, refl, arith, All, keep,
  eq_iff,
}
use tore_legal_data_engine.Prelude.Keys.{has, Distinct}
use tore_legal_data_engine.Domain.Enums.{is_published}
use tore_legal_data_engine.Domain.Entities.{LegalDocumentVersion}
use tore_legal_data_engine.Corpus.Store.{upsert}

abbrev pub Rows : Type 0
Rows = List LegalDocumentVersion

abbrev pub ids : Rows → List String
ids rows = map (λ v. v.id) rows

abbrev pub put : LegalDocumentVersion → Rows → Rows
put row rows = upsert (λ v. v.id) row rows

-- A published version of the document.
abbrev pub is_live : String → LegalDocumentVersion → Bool
is_live d v = (v.document_id == d) && is_published v.status

pub has-put :
    (k : String) (row : LegalDocumentVersion) (rows : Rows)
    → has k (ids (put row rows)) ≡ (has k (ids rows) || (row.id == k))
unfolding upsert
has-put k row [] = ground arith
has-put k row (v ∷ rows) = ground (arith, has-put k row rows, eq_iff v.id row.id)

pub Distinct-put :
    (row : LegalDocumentVersion) (rows : Rows) → Distinct (ids rows) → Distinct (ids (put row rows))
unfolding upsert
Distinct-put row [] d = (refl, tt)
Distinct-put row (v ∷ rows) d =
    ground
      (arith, Distinct-put row rows, has-put v.id row rows, eq_iff v.id row.id, eq_iff row.id v.id)

pub put_absent :
    (row : LegalDocumentVersion) (rows : Rows)
    → has row.id (ids rows) ≡ false
    → put row rows ≡ rows ++ row ∷ []
unfolding upsert
put_absent row [] h = refl
put_absent row (v ∷ rows) h = ground (arith, put_absent row rows)

-- Every published version of the document has one of the identifiers.
abbrev pub LiveIn : String → List String → Rows → Type 0
LiveIn d ks rows = All (λ v. (is_live d v && not (has v.id ks)) ≡ false) rows

LiveIn-absent :
    (d k : String) (ks : List String) (rows : Rows)
    → has k (ids rows) ≡ false
    → LiveIn d (k ∷ ks) rows
    → LiveIn d ks rows
LiveIn-absent d k ks [] h l = tt
LiveIn-absent d k ks (v ∷ rows) h l =
    ground (arith, LiveIn-absent d k ks rows, eq_iff k v.id, eq_iff v.id k)

-- Superseding the row of the first identifier leaves the others.
pub LiveIn-put :
    (d : String) (row : LegalDocumentVersion) (ks : List String) (rows : Rows)
    → is_published row.status ≡ false
    → Distinct (ids rows)
    → LiveIn d (row.id ∷ ks) rows
    → LiveIn d ks (put row rows)
unfolding upsert
LiveIn-put d row ks [] p dis l = ground arith
LiveIn-put d row ks (v ∷ rows) p dis l = ground (
  arith,
  LiveIn-put d row ks rows p,
  LiveIn-absent d row.id ks rows,
  eq_iff v.id row.id,
  eq_iff row.id v.id,
)

pub keep_of_LiveIn : (d : String) (rows : Rows) → LiveIn d [] rows → keep (is_live d) rows ≡ []
keep_of_LiveIn d [] l = refl
keep_of_LiveIn d (v ∷ rows) l = ground (arith, keep_of_LiveIn d rows)

pub keep-append :
    (p : LegalDocumentVersion → Bool) (xs ys : Rows) → keep p (xs ++ ys) ≡ keep p xs ++ keep p ys
keep-append p [] ys = refl
keep-append p (x ∷ xs) ys = ground (arith, keep-append p xs ys)
