-- ===== src/Domain/OpenQuestion.antt =====
-- src/domain/services/open-question-search.ts: what is kept of the ranked candidates.
pub mod Laws
use tore_legal_data_engine.Prelude.{
  ℕ, String, Option, none, some, List, [], ◌∷◌, Bool, true, false, not, ◌&&◌, if◌then◌else◌, truthy,
  or_else,
}
use tore_legal_data_engine.Prelude.Int.{ℤ}
use tore_legal_data_engine.Prelude.Keys.{has}
use tore_legal_data_engine.Prelude.Text.{◌<>◌, collapse_spaces, trim}
use tore_legal_data_engine.Domain.Entities.{LegalNodeSearchCandidate}
use tore_legal_data_engine.Domain.Version.{version_covers_instant}

abbrev pub max_open_question_candidates : ℕ
max_open_question_candidates = 20

unfoldable pub normalize_open_question : String → String
unfolding collapse_spaces trim
normalize_open_question question = trim (collapse_spaces question)

-- The key of a provision, `${documentId}:${sourceLocator}`.
abbrev pub provision : LegalNodeSearchCandidate → String
provision c = c.document_id <> ":" <> c.node.source_locator

module _ (parse_date : String → Option ℤ) where
  -- The test before `continue`: the instant is given and the candidate does not cover it.
  unfoldable pub outside : Option String → LegalNodeSearchCandidate → Bool
  outside as_of c =
      truthy as_of
      && not (version_covers_instant parse_date c.effective_from c.effective_to (or_else as_of ""))

  -- The loop of `filterAndDedupeCandidates`, with its `seen` set.
  unfoldable pub dedupe_from :
      Option String → List String → List LegalNodeSearchCandidate → List LegalNodeSearchCandidate
  dedupe_from as_of seen [] = []
  dedupe_from as_of seen (c ∷ rest) =
      let skipped = dedupe_from as_of seen rest in
      let taken = dedupe_from as_of (provision c ∷ seen) rest in
      if outside as_of c then skipped else if has (provision c) seen then skipped else c ∷ taken

  unfoldable pub filter_and_dedupe_candidates :
      List LegalNodeSearchCandidate → Option String → List LegalNodeSearchCandidate
  unfolding dedupe_from
  filter_and_dedupe_candidates candidates as_of = dedupe_from as_of [] candidates
