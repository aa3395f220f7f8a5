-- ===== src/Examples/Publishing.antt =====
-- A second version of a law is published.
use tore_legal_data_engine.Prelude.{◌<◌, none, some, [], ◌∷◌, ◌≡◌, refl, keep, All}
use tore_legal_data_engine.Prelude.Text.{is_blank, parse_natural}
use tore_legal_data_engine.Prelude.Keys.{without}
use tore_legal_data_engine.Prelude.Maps.{get, set}
use tore_legal_data_engine.Prelude.Result.{ok}
use tore_legal_data_engine.Domain.Enums.{VersionStatus}
use tore_legal_data_engine.Domain.Entities.{
  LegalDocument, LegalDocumentVersion, nil, cons, legal_node,
}
use tore_legal_data_engine.Domain.Hierarchy.{
  assert_legal_node_hierarchy, flatten_legal_nodes, index, enter, walk, assert_acyclic,
}
use tore_legal_data_engine.Domain.Hierarchy.Assemble.{
  assemble_legal_node_tree, has_parent, index_by_id, link, link_all, read_trees,
}
use tore_legal_data_engine.Domain.Version.{
  assert_document_version, parse_optional_instant, bounds_reversed, versions_do_not_overlap,
  pairwise_clear, clear_of, intervals_overlap, bound, reaches,
}
use tore_legal_data_engine.Corpus.Store.{Store, upsert}
use tore_legal_data_engine.Corpus.Repositories.{
  versions_of_document, by_number, insert_version, save_document, save_version, save_citation,
  replace_nodes, reviews_of_document, id_or_fresh, tree_of_version,
}
use tore_legal_data_engine.Corpus.Tables.{is_live}
use tore_legal_data_engine.Corpus.Persist.{persist_with, check_input}
use tore_legal_data_engine.Ingest.Request.{
  PublishInput, Published, published, is_canonicalization, prior_same_source, superseded,
  max_number, next_number,
}
use tore_legal_data_engine.Ingest.Publish.{
  publish_next, finish, supersede_all, save_citations, publish_citations, accept_all,
  accept_pending_reviews,
}
use tore_legal_data_engine.Ingest.Publish.OneLive.{IsConsistent, publish_next-one_live}
use tore_legal_data_engine.Examples.Fixtures.{
  clock, fresh, root, first_article, version_at, law_of, empty_store,
}

abbrev revised : LegalDocument
revised = law_of (
    record (version_at "" 1 (some "30") none VersionStatus.published) {
      nodes = cons (legal_node root (cons (legal_node first_article nil) nil)) nil;
    }
    ∷ [])

abbrev input : PublishInput
input = record {
  parsed = revised;
  url = "https://legalinfo.mn/mn/detail?lawId=1";
  hash = "hash-new";
  archive_id = "archive-new";
  law_id = some "1";
  parser_id = "parser-1";
  now = "20";
}

abbrev before : Store
before = record empty_store {
  documents = law_of [] ∷ [];
  versions = version_at "v1" 1 (some "10") none VersionStatus.published ∷ [];
}

abbrev outcome : Published
outcome = record {
  outcome = published;
  document_id = "d1";
  version_id = "u";
  parse_review_id = none;
}

abbrev after_publish : Store
after_publish = (publish_next clock fresh input (law_of []) before).1

before-IsConsistent : IsConsistent fresh before
before-IsConsistent = record {
  distinct = (refl, tt);
  named = (refl, tt);
  fresh = refl;
  fresh_named = refl;
}

run : publish_next clock fresh input (law_of []) before ≡ (ok outcome, after_publish)
unfolding publish_next supersede_all versions_of_document save_version assert_document_version
    superseded is_blank parse_natural is_canonicalization persist_with check_input next_number
    assert_legal_node_hierarchy versions_do_not_overlap upsert save_document replace_nodes
    publish_citations by_number id_or_fresh insert_version reviews_of_document save_citation
    tree_of_version assemble_legal_node_tree has_parent index_by_id link link_all read_trees
    assert_acyclic enter flatten_legal_nodes index walk bound bounds_reversed clear_of
    intervals_overlap pairwise_clear parse_optional_instant reaches accept_all
    accept_pending_reviews finish max_number prior_same_source save_citations without get set
run = refl

publish_next-one_live_example :
    (new : LegalDocumentVersion) × (keep (is_live "d1") after_publish.versions ≡ new ∷ [])
    × (new.id ≡ "u")
    × (new.content_hash ≡ "hash-new")
    × (new.parser_id ≡ "parser-1")
    × All (λ v. v.version_number < new.version_number) (versions_of_document "d1" before)
publish_next-one_live_example =
    publish_next-one_live clock fresh input (law_of []) before after_publish outcome
      before-IsConsistent refl run
