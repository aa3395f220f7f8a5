-- ===== src/Publication/SpecialLaws.antt =====
-- src/application/ingest/publication-gate.ts, `specialLawReasons`: what is known of single laws.
use tore_legal_data_engine.Prelude.{
  ℕ, String, Option, none, some, List, [], ◌∷◌, ◌++◌, map, Bool, false, not, ◌&&◌, ◌||◌,
  if◌then◌else◌, ltb, eqb, length, is_empty, keep, some_of, truthy, or_else, ◌==◌, head?,
}
use tore_legal_data_engine.Prelude.Keys.{has}
use tore_legal_data_engine.Prelude.Text.{join, trim, parse_natural, before_caret}
use tore_legal_data_engine.Regex.{test, lit}
use tore_legal_data_engine.Domain.Enums.{
  LegalNodeType, article, chapter, annex, part, sub_clause, same_type,
}
use tore_legal_data_engine.Domain.Entities.{FlatNode, LegalDocument}
use tore_legal_data_engine.Publication.Confidence.{reason_if}
use tore_legal_data_engine.Publication.Patterns.{
  compound_article_re, clause_locator_re, print_button_re,
}

abbrev of_type : LegalNodeType → List FlatNode → List FlatNode
of_type t flat = keep (λ n. same_type n.node_type t) flat

abbrev located : List FlatNode → String → Bool
located flat locator = has locator (map (λ n. n.source_locator) flat)

abbrev text_blob : List FlatNode → String
text_blob flat = join "\n" (map (λ n. n.text) flat)

-- `articles.some(…)`, over the `article` field.
abbrev some_article : (String → Bool) → List FlatNode → Bool
some_article p flat = some_of (λ n. p (or_else n.article "")) (of_type article flat)

criminal_code : List FlatNode → List String
criminal_code flat =
    reason_if (not (some_article (test compound_article_re) flat)) "compound_articles_missing"
    ++ (reason_if (not (located flat "ch-11") || not (located flat "ch-30"))
          "chapter_11_plus_missing"
        ++ reason_if (ltb (length (of_type article flat)) 200) "criminal_article_count_low")

law_299 : List FlatNode → List String
law_299 flat =
    reason_if (not (located flat "art-42^1")) "inserted_article_42^1_missing"
    ++ reason_if (not (is_empty (of_type part flat))) "invented_part_nodes"

law_14403 : LegalDocument → List FlatNode → List String
law_14403 d flat =
    reason_if (is_empty (of_type sub_clause flat)) "sub_clause_missing"
    ++ (reason_if (not (some_of (λ n. test clause_locator_re n.source_locator) flat)) "nm_k_missing"
        ++ (reason_if (elim (head? d.versions) [ none ↦ false | some v ↦ truthy v.effective_from ])
              "delayed_effect_date_inferred"
            ++ reason_if (not (test (lit "2027") (text_blob flat))) "delayed_effect_text_missing"))

law_216 : List FlatNode → List String
law_216 flat =
    reason_if (not (located flat "art-44^1")) "inserted_article_44^1_missing"
    ++ reason_if (not (test (lit "хүчингүй") (text_blob flat))) "repeal_notes_missing"

law_302 : List FlatNode → List String
law_302 flat =
    reason_if (not (located flat "ch-7^1") || not (located flat "ch-12^1"))
      "inserted_chapters_missing"
    ++ (reason_if (not (some_article (test (lit "^")) flat)) "inserted_articles_missing"
        ++ reason_if (not (test (lit "хүчингүй") (text_blob flat))) "repeal_notes_missing")

law_209 : List FlatNode → List String
law_209 flat =
    reason_if (not (is_empty (of_type annex flat))) "invented_annex_nodes"
    ++ reason_if (not (is_empty (of_type part flat))) "invented_part_nodes"

abbrev above_nine : Option ℕ → Bool
above_nine none = false
above_nine (some n) = ltb 9 n

law_28 : List FlatNode → List String
law_28 flat =
    reason_if (not (is_empty (of_type chapter flat))) "unexpected_chapters"
    ++ (reason_if (not (eqb (length (of_type article flat)) 9)) "unexpected_article_count"
        ++ (reason_if (not (is_empty (of_type annex flat))) "invented_annex_nodes"
            ++ reason_if (some_article (λ a. above_nine (parse_natural (before_caret a))) flat)
                "rate_table_became_hierarchy"))

law_218 : List FlatNode → List String
law_218 flat =
    reason_if (not (located flat "art-8^1") && not (located flat "art-41^1"))
      "inserted_articles_missing"
    ++ reason_if (some_of (λ n. test print_button_re (trim n.text)) flat) "chrome_or_toc_node"

law_12656 : List FlatNode → List String
law_12656 flat =
    reason_if (not (located flat "ch-6") || not (located flat "ch-10"))
      "revised_chapter_structure_missing"

law_11259 : List FlatNode → List String
law_11259 flat =
    if not (is_empty (of_type part flat))
    then "invented_part_nodes" ∷ []
    else reason_if (ltb (length (of_type article flat)) 50) "admin_article_count_low"

unfoldable pub special_law_reasons : Option String → LegalDocument → List FlatNode → List String
unfolding criminal_code law_299 law_14403 law_216 law_302 law_209 law_28 law_218 law_12656 law_11259
    test
special_law_reasons none d flat = []
special_law_reasons (some law) d flat =
    if law == "11634"
    then criminal_code flat
    else if law == "299"
    then law_299 flat
    else if law == "14403"
    then law_14403 d flat
    else if law == "216"
    then law_216 flat
    else if law == "302"
    then law_302 flat
    else if law == "209"
    then law_209 flat
    else if law == "28"
    then law_28 flat
    else if law == "218"
    then law_218 flat
    else if law == "12656"
    then law_12656 flat
    else if law == "11259"
    then law_11259 flat
    else []
