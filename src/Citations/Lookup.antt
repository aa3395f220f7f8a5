-- ===== src/Citations/Lookup.antt =====
-- src/infrastructure/prisma/prisma-citation.repository.ts, `findPublishedMatches`.
-- A row of the query's join is a citation with its node, version and the version's document.
use tore_legal_data_engine.Prelude.{
  String, Option, none, some, List, [], ◌∷◌, Bool, true, false, not, ◌&&◌, ◌||◌, if◌then◌else◌,
  truthy, or_else, same_opt, keep, ◌==◌,
}
use tore_legal_data_engine.Prelude.Int.{ℤ}
use tore_legal_data_engine.Prelude.Keys.{has}
use tore_legal_data_engine.Prelude.Text.{◌<>◌}
use tore_legal_data_engine.Domain.Enums.{VersionStatus, paragraph, article, same_type, is_published}
use tore_legal_data_engine.Domain.Entities.{
  FlatNode, LegalDocument, LegalDocumentVersion, CitationRecord,
}
use tore_legal_data_engine.Domain.Version.{version_covers_instant}

pub record CitationLookup : Type 0 where
  pub query : String
  pub node_id : Option String
  pub document_id : Option String
  pub locator : Option String
  pub citation_key : Option String
  pub title_hint : Option String
  pub article : Option String
  pub paragraph : Option String
  pub as_of : Option String

pub record CitationRow : Type 0 where
  pub citation : CitationRecord
  pub node : FlatNode
  pub version : LegalDocumentVersion
  pub document : LegalDocument

abbrev text_is : Option String → String → Bool
text_is none s = false
text_is (some t) s = if t == "" then false else t == s

abbrev pub is_superseded : VersionStatus → Bool
is_superseded VersionStatus.superseded = true
is_superseded _ = false

-- The last branch of the `OR`: an article with or without a paragraph.
unfoldable pub names_provision : CitationLookup → FlatNode → Bool
names_provision l n =
    if truthy l.article && truthy l.paragraph
    then same_opt n.article l.article
      && (same_opt n.paragraph l.paragraph && same_type n.node_type paragraph)
    else truthy l.article && (same_opt n.article l.article && same_type n.node_type article)

-- The `OR` of the query.
unfoldable pub is_named : CitationLookup → CitationRow → Bool
is_named l r =
    (r.citation.citation_key == l.query)
    || ((r.citation.locator == l.query)
        || (text_is l.node_id r.citation.legal_node_id
            || (text_is l.locator r.citation.locator
                || (text_is l.citation_key r.citation.citation_key || names_provision l r.node))))

module _ (contains_title : String → String → Bool) where
  -- The conditions on the version and its document. `contains_title` is the database's
  -- case-insensitive `contains`.
  unfoldable pub is_eligible : CitationLookup → CitationRow → Bool
  is_eligible l r =
      (is_published r.version.status || (truthy l.as_of && is_superseded r.version.status))
      && ((not (truthy l.document_id) || text_is l.document_id r.version.document_id)
          && (not (truthy l.title_hint)
              || contains_title r.document.title (or_else l.title_hint "")))

  module _ (parse_date : String → Option ℤ) where
    abbrev pub row_key : CitationRow → String
    row_key r = r.citation.document_version_id <> ":" <> r.citation.legal_node_id

    abbrev pub out_of_time : CitationLookup → CitationRow → Bool
    out_of_time l r =
        truthy l.as_of
        && not (
            version_covers_instant parse_date r.version.effective_from r.version.effective_to
              (or_else l.as_of ""))

    -- The loop over the rows, with its `seen` set.
    unfoldable pub distinct_rows :
        CitationLookup → List String → List CitationRow → List CitationRow
    distinct_rows l seen [] = []
    distinct_rows l seen (r ∷ rs) =
        let skipped = distinct_rows l seen rs in
        let taken = distinct_rows l (row_key r ∷ seen) rs in
        if out_of_time l r then skipped else if has (row_key r) seen then skipped else r ∷ taken

    unfoldable pub find_published_matches : CitationLookup → List CitationRow → List CitationRow
    find_published_matches l rows =
        distinct_rows l [] (keep (λ r. is_named l r && is_eligible l r) rows)
