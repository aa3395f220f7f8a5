-- ===== src/Ingest/Publish/Untouched.antt =====
-- The steps after a version is saved write no version.
use tore_legal_data_engine.Prelude.{
  ℕ, String, Option, none, List, [], ◌∷◌, ◌≡◌, refl, Bool-cases, ◌==◌, inl, inr,
}
use tore_legal_data_engine.Domain.Enums.{document, same_type}
use tore_legal_data_engine.Domain.Entities.{FlatNode, LegalNodes, ParseReview}
use tore_legal_data_engine.Domain.Hierarchy.{flatten_legal_nodes}
use tore_legal_data_engine.Corpus.Store.{Store}
use tore_legal_data_engine.Corpus.Repositories.{save_citation, save_review, id_or_fresh}
use tore_legal_data_engine.Ingest.Request.{PublishInput}
use tore_legal_data_engine.Ingest.Publish.{
  save_citations, publish_citations, accept_all, accept_pending_reviews, citation_of,
}

module _ (uuid : ℕ → String) where
  save_citation-versions :
      (input : PublishInput) (v : String) (n : FlatNode) (s : Store)
      → (save_citation uuid (citation_of input v n) s).1.versions ≡ s.versions
  unfolding save_citation id_or_fresh
  save_citation-versions input v n s = refl

  save_citations-versions :
      (input : PublishInput) (v : String) (ns : List FlatNode) (s : Store)
      → (save_citations uuid input v ns s).1.versions ≡ s.versions
  unfolding save_citations save_citation id_or_fresh
  save_citations-versions input v [] s = refl
  save_citations-versions input v (n ∷ ns) s = elim (Bool-cases (same_type n.node_type document)) [
    | inl d ↦ rw d (save_citations-versions input v ns s)
    | inr d ↦ rw d (save_citations-versions input v ns _)
  ]

  accept_all-versions :
      (rs : List ParseReview) (last : Option String) (s : Store)
      → (accept_all uuid last rs s).1.versions ≡ s.versions
  unfolding accept_all save_review id_or_fresh
  accept_all-versions [] last s = refl
  accept_all-versions (r ∷ rs) last s = elim (Bool-cases (r.id == "")) [
    | inl e ↦ rw e (accept_all-versions rs _ _)
    | inr e ↦ rw e (accept_all-versions rs _ _)
  ]

  pub publish_citations-versions :
      (input : PublishInput) (v : String) (nodes : LegalNodes) (s : Store)
      → (publish_citations uuid input v nodes s).1.versions ≡ s.versions
  unfolding publish_citations
  publish_citations-versions input v nodes s =
      save_citations-versions input v (flatten_legal_nodes nodes) s

  pub accept_pending_reviews-versions :
      (d a : String) (s : Store) → (accept_pending_reviews uuid d a s).1.versions ≡ s.versions
  unfolding accept_pending_reviews
  accept_pending_reviews-versions d a s = accept_all-versions _ none s
