-- ===== src/Retrieval/AsOf.antt =====
-- What a retrieval for an instant returns.
use tore_legal_data_engine.Prelude.{
  ◌≤◌, String, Option, none, some, List, [], ◌∷◌, map, Bool, true, false, not, ◌&&◌, ◌||◌, ◌≡◌, ◌↔◌,
  refl, arith, if◌then◌else◌, truthy, or_else, keep, take, is_empty, ◌==◌, All, All-append,
  All-take, length, length-take, subst, sym,
}
use tore_legal_data_engine.Prelude.Int.{ℤ}
use tore_legal_data_engine.Domain.Entities.{
  FlatNode, LegalDocumentVersion, LegalNodeSearchCandidate, CitationMatch,
}
use tore_legal_data_engine.Domain.Version.{version_covers_instant}
use tore_legal_data_engine.Domain.OpenQuestion.{outside, normalize_open_question}
use tore_legal_data_engine.Domain.OpenQuestion.Laws.{filter_and_dedupe_candidates_lem}
use tore_legal_data_engine.Citations.Lookup.{CitationLookup}
use tore_legal_data_engine.Retrieval.{
  Queries, RetrieveResponse, RetrieveStatus, RetrievedAuthority, RetrieveRequest, CitedQuery,
  max_authorities, to_authority, of_match, of_candidate, lookup_node, lookup_document,
  lookup_citations, cited_lookup, key_lookup, search_open_question, lookup, respond, retrieve,
  as_of_unavailable, statuses,
}

module _ (parse_date : String → Option ℤ) where
  -- The interval covers the instant.
  abbrev pub CoversAt : Option String → Option String → String → Type 0
  CoversAt from to t = version_covers_instant parse_date from to t ≡ true

  -- What the repositories promise of their queries for an instant.
  pub record IsTimely (q : Queries) : Type 0 where
    pub published_version :
        (id t : String) (v : LegalDocumentVersion)
        → truthy (some t) ≡ true
        → q.published_version id (some t) ≡ some v
        → CoversAt v.effective_from v.effective_to t
    pub matches :
        (l : CitationLookup) (t : String)
        → l.as_of ≡ some t
        → truthy (some t) ≡ true
        → All (λ m. CoversAt m.effective_from m.effective_to t) (q.matches l)

  module _ (q : Queries) (timely : IsTimely q) (t : String) (given : truthy (some t) ≡ true) where
    abbrev InTime : RetrievedAuthority → Type 0
    InTime a = CoversAt a.effective_from a.effective_to t

    lookup_node-InTime : (id : String) → All InTime (lookup_node parse_date q (some t) id)
    unfolding lookup_node to_authority
    lookup_node-InTime id = ground arith

    nodes-InTime :
        (v : LegalDocumentVersion) (ns : List FlatNode)
        → CoversAt v.effective_from v.effective_to t
        → All InTime (map (λ n. to_authority n v.document_id v) ns)
    unfolding to_authority
    nodes-InTime v [] h = tt
    nodes-InTime v (n ∷ ns) h = (h, nodes-InTime v ns h)

    found-InTime :
        (o : Option LegalDocumentVersion)
        → ((v : LegalDocumentVersion) → o ≡ some v → CoversAt v.effective_from v.effective_to t)
        → All InTime (elim o [
          | none ↦ []
          | some v ↦ map (λ n. to_authority n v.document_id v) (q.nodes_of_version v.id)
        ])
    found-InTime none h = tt
    found-InTime (some v) h = nodes-InTime v (q.nodes_of_version v.id) (h v refl)

    lookup_document-InTime : (id : String) → All InTime (lookup_document parse_date q (some t) id)
    unfolding lookup_document
    lookup_document-InTime id =
        found-InTime (q.published_version id (some t))
          (λ v e. timely.published_version id t v given e)

    of_match-InTime :
        (ms : List CitationMatch)
        → All (λ m. CoversAt m.effective_from m.effective_to t) ms
        → All InTime (map of_match ms)
    unfolding of_match
    of_match-InTime [] h = tt
    of_match-InTime (m ∷ ms) (h, hs) = (h, of_match-InTime ms hs)

    lookup_citations-InTime :
        (cs : List CitedQuery) → All InTime (lookup_citations parse_date q (some t) cs)
    unfolding lookup_citations
    lookup_citations-InTime [] = tt
    lookup_citations-InTime (c ∷ cs) =
        All-append InTime _ _
          (of_match-InTime _
            (timely.matches (cited_lookup (some t) c) t (unfold cited_lookup in refl) given))
          (lookup_citations-InTime cs)

    of_candidate-InTime :
        (cs : List LegalNodeSearchCandidate)
        → All (λ c. outside parse_date (some t) c ≡ false) cs
        → All InTime (map of_candidate cs)
    unfolding of_candidate outside
    of_candidate-InTime [] h = tt
    of_candidate-InTime (c ∷ cs) (h, hs) = (ground arith, of_candidate-InTime cs hs)

    search-InTime :
        (question : String) → All InTime (search_open_question parse_date q (some t) question)
    unfolding search_open_question
    search-InTime question =
        let (_, _, inside) =
          filter_and_dedupe_candidates_lem parse_date (some t)
            (q.candidates (statuses (some t)) 20 question) in
        of_candidate-InTime _ inside

    choose :
        (b : Bool) (xs ys : List RetrievedAuthority)
        → All InTime xs
        → All InTime ys
        → All InTime (if b then xs else ys)
    choose true xs ys h k = h
    choose false xs ys h k = k

    lookup-InTime : (r : RetrieveRequest) → r.as_of ≡ some t → All InTime (lookup parse_date q r)
    unfolding lookup
    lookup-InTime r e =
        choose (truthy r.node_id) _ _
          (subst (λ o. All InTime (lookup_node parse_date q o (or_else r.node_id ""))) (sym e)
            (lookup_node-InTime _))
          (choose (truthy r.document_id) _ _
            (subst (λ o. All InTime (lookup_document parse_date q o (or_else r.document_id "")))
              (sym e) (lookup_document-InTime _))
            (choose (truthy r.citation_key || truthy r.locator) _ _
              (of_match-InTime _ (timely.matches (key_lookup r) t (unfold key_lookup in e) given))
              (choose (not (is_empty r.citations)) _ _
                (subst (λ o. All InTime (lookup_citations parse_date q o r.citations)) (sym e)
                  (lookup_citations-InTime r.citations))
                (choose (normalize_open_question r.question == "") _ _ tt (
                  subst
                    (λ o.
                      All InTime
                        (search_open_question parse_date q o (normalize_open_question r.question)))
                    (sym e) (search-InTime _))))))

    All-kept :
        (p : RetrievedAuthority → Bool) (xs : List RetrievedAuthority)
        → All InTime xs
        → All InTime (keep p xs)
    All-kept p [] h = tt
    All-kept p (x ∷ xs) h = ground (arith, All-kept p xs)

    -- The response to an instant, given what passed its last filter.
    abbrev answer : List RetrievedAuthority → RetrieveResponse
    answer xs =
        if is_empty xs
        then record { authorities = []; status = as_of_unavailable }
        else record { authorities = take max_authorities xs; status = RetrieveStatus.ok }

    abbrev IsAnswer : RetrieveResponse → Type 0
    IsAnswer a =
        All InTime a.authorities
        × (length a.authorities ≤ 100)
        × ((a.status ≡ as_of_unavailable) ↔ (a.authorities ≡ []))

    answer-IsAnswer : (xs : List RetrievedAuthority) → All InTime xs → IsAnswer (answer xs)
    answer-IsAnswer [] h = (tt, omega arith, (λ e. refl, λ e. refl))
    answer-IsAnswer (x ∷ xs) h =
        (All-take InTime 100 (x ∷ xs) h, length-take 100 (x ∷ xs), (λ e. cc, λ e. cc))

    respond-IsAnswer :
        (found : List RetrievedAuthority)
        → All InTime found
        → IsAnswer (respond parse_date q (some t) found)
    unfolding respond
    respond-IsAnswer found h = rw given (
        answer-IsAnswer _
          (All-kept (λ a. truthy a.effective_from && truthy a.effective_to) found h))

    -- Where the repositories' queries for an instant return only versions that cover it, a
    -- request for an instant is answered by at most 100 authorities, all from versions whose
    -- known interval contains the instant; `AS_OF_UNAVAILABLE` is reported exactly when there is
    -- none.
    pub retrieve-as_of :
        (r : RetrieveRequest)
        → r.as_of ≡ some t
        → All InTime (retrieve parse_date q r).authorities
          × (length (retrieve parse_date q r).authorities ≤ 100)
          × (((retrieve parse_date q r).status ≡ as_of_unavailable)
              ↔ ((retrieve parse_date q r).authorities ≡ []))
    unfolding retrieve
    retrieve-as_of r e =
        subst (λ o. IsAnswer (respond parse_date q o (lookup parse_date q r))) (sym e)
          (respond-IsAnswer (lookup parse_date q r) (lookup-InTime r e))
