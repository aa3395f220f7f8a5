-- ===== src/Citations/Query.antt =====
-- src/application/citations/parse-citation-query.ts
pub mod Title
use tore_legal_data_engine.Prelude.{
  String, Option, none, some, List, [], ◌∷◌, or_opt, or_else, ◌&&◌, truthy, if◌then◌else◌,
}
use tore_legal_data_engine.Prelude.Text.{◌<>◌, collapse_spaces, trim}
use tore_legal_data_engine.Regex.{
  Regex, Captures, nothing, at_start, word_boundary, seq, alt, star, lazy_star, group, digit, plus,
  opt, lit, lit_i, search_text, captured,
}
use tore_legal_data_engine.Publication.Patterns.{space, any_char}

pub record ParsedCitationQuery : Type 0 where
  pub title_hint : Option String
  pub article : Option String
  pub paragraph : Option String
  pub locator : Option String

-- `/(\d+)\s*(?:\.\s*(\d+))?\s*(?:дүгээр|дугаар|дэх)?\s*зүйл/i`
unfoldable pub article_re : Regex
article_re = seq (group 1 (plus digit)) (
    seq (star space) (
      seq (opt (seq (lit ".") (seq (star space) (group 2 (plus digit))))) (
        seq (star space) (
          seq (opt (alt (lit_i "дүгээр") (alt (lit_i "дугаар") (lit_i "дэх"))))
            (seq (star space) (lit_i "зүйл"))))))

-- `/\b(\d+)\.(\d+)\b/`
unfoldable pub dotted_re : Regex
dotted_re =
    seq word_boundary
      (seq (group 1 (plus digit)) (seq (lit ".") (seq (group 2 (plus digit)) word_boundary)))

-- The part of `/^(.+?)\s+хуулийн\b/i` before its last character and the boundary.
unfoldable pub title_prefix_re : Regex
title_prefix_re =
    seq at_start
      (seq (group 1 (seq any_char (lazy_star any_char))) (seq (plus space) (lit_i "хуулий")))

-- `/^(.+?)\s+хуулийн\b/i`
unfoldable pub title_re : Regex
title_re = seq title_prefix_re (seq (lit_i "н") word_boundary)

-- `match?.[n]`
abbrev pub capture_of : Option Captures → (Captures → Option String) → Option String
capture_of none f = none
capture_of (some c) f = f c

unfoldable pub extract_title_hint : String → Option String
extract_title_hint query = elim (capture_of (search_text title_re query) (captured 1)) [
  | none ↦ none
  | some t ↦ if truthy (some t) then some (trim t) else none
]

-- `article && paragraph ? … : article ? … : null`
unfoldable pub locator_for : Option String → Option String → Option String
locator_for article paragraph =
    if truthy article && truthy paragraph
    then some ("art-" <> or_else article "" <> "/p-" <> or_else paragraph "")
    else if truthy article
    then some ("art-" <> or_else article "")
    else none

unfoldable pub parse_exact_citation_query : String → ParsedCitationQuery
parse_exact_citation_query query =
    let normalized = trim (collapse_spaces query) in
    let by_word = search_text article_re normalized in
    let by_dot = search_text dotted_re normalized in
    let article = or_opt (capture_of by_word (captured 1)) (capture_of by_dot (captured 1)) in
    let paragraph = or_opt (capture_of by_word (captured 2)) (capture_of by_dot (captured 2)) in
    record {
      title_hint = extract_title_hint normalized;
      article = article;
      paragraph = paragraph;
      locator = locator_for article paragraph;
    }
