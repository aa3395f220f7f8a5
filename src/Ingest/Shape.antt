-- ===== src/Ingest/Shape.antt =====
-- `parseShape` of src/application/ingest/ingest-legalinfo.service.ts: what a parsed tree is made of.
use Prim.Native.Char.{code}
use Prim.Native.String
use tore_legal_data_engine.Prelude.{
  ℕ, suc, String, List, [], ◌∷◌, Bool, false, ◌&&◌, ◌||◌, if◌then◌else◌, eqb, length, keep, or_else,
}
use tore_legal_data_engine.Prelude.Keys.{has}
use tore_legal_data_engine.Prelude.Result.{Result, ok, err}
use tore_legal_data_engine.Domain.Enums.{
  LegalNodeType, article, paragraph, clause, chapter, annex, same_type,
}
use tore_legal_data_engine.Domain.Entities.{FlatNode, LegalNodes}
use tore_legal_data_engine.Domain.Hierarchy.{flatten_legal_nodes, assert_legal_node_hierarchy}

pub record ParseShape : Type 0 where
  pub nodes : ℕ
  pub articles : ℕ
  pub paragraphs : ℕ
  pub clauses : ℕ
  pub chapters : ℕ
  pub annexes : ℕ
  pub inserted_articles : ℕ
  pub duplicate_locators : ℕ
  pub hierarchy_violations : List String

unfoldable pub count_type : LegalNodeType → List FlatNode → ℕ
count_type t nodes = length (keep (λ n. same_type n.node_type t) nodes)

-- `/\^/.test(text)`
unfoldable pub has_caret : String → Bool
has_caret Prim.Native.String.[] = false
has_caret (Prim.Native.String.◌∷◌ c s) = eqb (code c) b'^' || has_caret s

-- The loop over the locators.
unfoldable pub duplicates_from : List String → List FlatNode → ℕ
duplicates_from seen [] = 0
duplicates_from seen (n ∷ rest) =
    let more = duplicates_from (n.source_locator ∷ seen) rest in
    if has n.source_locator seen then suc more else more

abbrev pub violations : Result (Unit {0}) → List String
violations (ok u) = []
violations (err e) = e.message ∷ []

unfoldable pub parse_shape : LegalNodes → ParseShape
unfolding count_type duplicates_from has_caret
parse_shape tree =
    let flat = flatten_legal_nodes tree in
    record {
      nodes = length flat;
      articles = count_type article flat;
      paragraphs = count_type paragraph flat;
      clauses = count_type clause flat;
      chapters = count_type chapter flat;
      annexes = count_type annex flat;
      inserted_articles =
          length
            (keep (λ n. same_type n.node_type article && has_caret (or_else n.article "")) flat);
      duplicate_locators = duplicates_from [] flat;
      hierarchy_violations = violations (assert_legal_node_hierarchy tree);
    }
