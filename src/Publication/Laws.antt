-- ===== src/Publication/Laws.antt =====
-- What is known of a document that passes the gate.
use tore_legal_data_engine.Prelude.{
  String, Option, none, some, List, [], ◌∷◌, Bool, true, false, not, ◌||◌, ◌≡◌, refl, arith,
  if◌then◌else◌, is_empty, keep, some_of, ◌==◌, head?, same_opt, All, All-mono, append-eq-nil,
  some_of-eq-false, eq_iff,
}
use tore_legal_data_engine.Prelude.Keys.{unique, unique-eq-nil}
use tore_legal_data_engine.Prelude.Result.{Result, ok, err}
use tore_legal_data_engine.Regex.{test}
use tore_legal_data_engine.Domain.Enums.{article, same_type}
use tore_legal_data_engine.Domain.Entities.{FlatNode, LegalDocument, LegalDocumentVersion}
use tore_legal_data_engine.Domain.Hierarchy.{assert_legal_node_hierarchy, flatten_legal_nodes}
use tore_legal_data_engine.Domain.Hierarchy.Spec.{IsWellFormed}
use tore_legal_data_engine.Domain.Hierarchy.Sound.{assert_legal_node_hierarchy_iff}
use tore_legal_data_engine.Publication.Patterns.{locator_re}
use tore_legal_data_engine.Publication.Confidence.{
  reason_if, confidence_reasons, version_reasons, first_version_reasons, title_missing,
}
use tore_legal_data_engine.Publication.SpecialLaws.{special_law_reasons}
use tore_legal_data_engine.Evaluation.Structure.{
  VersionStructureReport, evaluate_version_structure, summarize,
}
use tore_legal_data_engine.Publication.Gate.{
  message_of, nodes_of, version_id_of, ends, is_structural, structure_reasons, tree_of,
  gate_reasons, assess_publication_gate, passed, refused,
}

reason_if-eq-nil : (b : Bool) (r : String) → reason_if b r ≡ [] → b ≡ false
reason_if-eq-nil true r h = cc
reason_if-eq-nil false r h = refl

message_of-eq-nil : (r : Result (Unit {0})) → message_of r ≡ [] → r ≡ ok tt
message_of-eq-nil (ok tt) h = refl
message_of-eq-nil (err e) h = cc

abbrev pub flat_of : LegalDocument → List FlatNode
flat_of d = flatten_legal_nodes (tree_of d)

abbrev pub structure_of : LegalDocument → VersionStructureReport
structure_of d = evaluate_version_structure d.id (version_id_of (head? d.versions)) (flat_of d)

structure_facts :
    (document_id version_id : String) (nodes : List FlatNode)
    → structure_reasons (evaluate_version_structure document_id version_id nodes) ≡ []
    → ((evaluate_version_structure document_id version_id nodes).document_parents ≡ 1)
      × ((evaluate_version_structure document_id version_id nodes).orphans ≡ [])
      × ((evaluate_version_structure document_id version_id nodes).incompatible_types ≡ [])
unfolding structure_reasons summarize evaluate_version_structure
structure_facts document_id version_id nodes h = (ground arith, ground arith, ground arith)

-- What holds of a document that may be published.
pub record IsPublishable (d : LegalDocument) (archive_sha256 bytes_sha256 : String)
    (law_id : Option String) : Type 0 where
  pub same_bytes : archive_sha256 ≡ bytes_sha256
  pub well_formed : IsWellFormed (tree_of d)
  pub located : All (λ n. test locator_re n.source_locator ≡ true) (flat_of d)
  pub flat_levels : All (λ n. is_structural n ≡ false) (flat_of d)
  pub numbered :
      All (λ n. (same_opt n.chapter (some "0") || (n.source_locator == "ch-0")) ≡ false) (flat_of d)
  pub titled : title_missing d ≡ false
  pub open_ended : ends (head? d.versions) ≡ false
  pub has_article : is_empty (keep (λ n. same_type n.node_type article) (flat_of d)) ≡ false
  pub one_document : (structure_of d).document_parents ≡ 1
  pub no_orphans : (structure_of d).orphans ≡ []
  pub parents_allowed : (structure_of d).incompatible_types ≡ []
  pub special : special_law_reasons law_id d (flat_of d) ≡ []

-- The reasons part by part.
record Silent (d : LegalDocument) (a b : String) (law_id : Option String) : Type 0 where
  confidence : confidence_reasons d ≡ []
  hash : reason_if (not (a == b)) "archive_hash_mismatch" ≡ []
  tree : message_of (assert_legal_node_hierarchy (tree_of d)) ≡ []
  structure : structure_reasons (structure_of d) ≡ []
  locators :
      reason_if
        (some_of (λ n. not (test locator_re n.source_locator)) (flat_of d))
        "invented_locator"
      ≡ []
  chapters :
      reason_if
        (some_of (λ n. same_opt n.chapter (some "0") || (n.source_locator == "ch-0")) (flat_of d))
        "invented_locator"
      ≡ []
  levels : reason_if (some_of is_structural (flat_of d)) "invented_structural_level" ≡ []
  end_date : reason_if (ends (head? d.versions)) "unsafe_effective_to" ≡ []
  special : special_law_reasons law_id d (flat_of d) ≡ []

gate_reasons-Silent :
    (d : LegalDocument) (a b : String) (law_id : Option String)
    → gate_reasons d a b law_id ≡ []
    → Silent d a b law_id
unfolding gate_reasons
gate_reasons-Silent d a b law_id h =
    let (r0, h1) = append-eq-nil (confidence_reasons d) _ h in
    let (r1, h2) = append-eq-nil (reason_if (not (a == b)) "archive_hash_mismatch") _ h1 in
    let (r2, h3) = append-eq-nil (message_of (assert_legal_node_hierarchy (tree_of d))) _ h2 in
    let (r3, h4) = append-eq-nil (structure_reasons (structure_of d)) _ h3 in
    let (_, h5) = append-eq-nil (reason_if _ "duplicate_citation_locators") _ h4 in
    let (r5, h6) = append-eq-nil (reason_if _ "invented_locator") _ h5 in
    let (r6, h7) = append-eq-nil (reason_if _ "invented_locator") _ h6 in
    let (r7, h8) = append-eq-nil (reason_if _ "invented_structural_level") _ h7 in
    let (_, h9) = append-eq-nil (reason_if _ "chrome_or_toc_node") _ h8 in
    let (r9, r10) = append-eq-nil (reason_if _ "unsafe_effective_to") _ h9 in
    record {
      confidence = r0;
      hash = r1;
      tree = r2;
      structure = r3;
      locators = r5;
      chapters = r6;
      levels = r7;
      end_date = r9;
      special = r10;
    }

has_article_of_confidence :
    (v : LegalDocumentVersion)
    → version_reasons v ≡ []
    → is_empty (keep (λ n. same_type n.node_type article) (flatten_legal_nodes v.nodes)) ≡ false
unfolding version_reasons
has_article_of_confidence v h =
    let (_, h1) = append-eq-nil (reason_if _ "broken_article_hierarchy") _ h in
    let (r, _) = append-eq-nil (reason_if _ "no_recognizable_provisions") _ h1 in
    reason_if-eq-nil _ _ r

first_version_has_article :
    (v : Option LegalDocumentVersion)
    → first_version_reasons v ≡ []
    → is_empty (keep (λ n. same_type n.node_type article) (flatten_legal_nodes (nodes_of v)))
      ≡ false
first_version_has_article none e = cc
first_version_has_article (some w) e = has_article_of_confidence w e

confidence_facts :
    (d : LegalDocument)
    → confidence_reasons d ≡ []
    → (title_missing d ≡ false)
      × (is_empty (keep (λ n. same_type n.node_type article) (flat_of d)) ≡ false)
unfolding confidence_reasons
confidence_facts d h =
    let (t, rest) = append-eq-nil (reason_if (title_missing d) "missing_title") _ h in
    (reason_if-eq-nil _ _ t, first_version_has_article (head? d.versions) rest)

passed-empty :
    (reasons : List String)
    → (if is_empty reasons then passed else refused reasons) ≡ passed
    → reasons ≡ []
passed-empty [] h = refl
passed-empty (r ∷ rs) h = cc

Silent-of_passed :
    (d : LegalDocument) (a b : String) (law_id : Option String)
    → assess_publication_gate d a b law_id ≡ passed
    → Silent d a b law_id
unfolding assess_publication_gate
Silent-of_passed d a b law_id h =
    gate_reasons-Silent d a b law_id
      (unique-eq-nil _ (passed-empty (unique (gate_reasons d a b law_id)) h))

-- A document that passes the gate is publishable: its bytes are the archived ones, its tree is well
-- formed, has an article and one document root, no orphan and no forbidden nesting, only locators of
-- the known shape, no book, part or section, no chapter 0, a title, no end date, and nothing that is
-- known to be wrong for its law.
pub gate_passed-IsPublishable :
    (d : LegalDocument) (archive_sha256 bytes_sha256 : String) (law_id : Option String)
    → assess_publication_gate d archive_sha256 bytes_sha256 law_id ≡ passed
    → IsPublishable d archive_sha256 bytes_sha256 law_id
gate_passed-IsPublishable d a b law_id h =
    let s = Silent-of_passed d a b law_id h in
    let (one, orphans, nested) = structure_facts _ _ _ s.structure in
    let (titled, articles) = confidence_facts d s.confidence in
    record {
      same_bytes = ground (arith, reason_if-eq-nil _ _ s.hash, eq_iff a b);
      well_formed = (assert_legal_node_hierarchy_iff (tree_of d)).0 (message_of-eq-nil _ s.tree);
      located =
          All-mono _ _ (flat_of d) (λ n e. ground arith)
            (some_of-eq-false _ (flat_of d) (reason_if-eq-nil _ _ s.locators));
      flat_levels = some_of-eq-false is_structural (flat_of d) (reason_if-eq-nil _ _ s.levels);
      numbered = some_of-eq-false _ (flat_of d) (reason_if-eq-nil _ _ s.chapters);
      titled = titled;
      open_ended = reason_if-eq-nil _ _ s.end_date;
      has_article = articles;
      one_document = one;
      no_orphans = orphans;
      parents_allowed = nested;
      special = s.special;
    }
