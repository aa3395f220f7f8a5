-- ===== src/Domain/Enums.antt =====
-- src/domain/enums.ts: the closed vocabularies of the corpus.
use tore_legal_data_engine.Prelude.{ℕ, eqb, Bool, true, false}

pub data LegalNodeType : Type 0 where
  document book part chapter section article paragraph clause sub_clause annex : LegalNodeType

pub data CitationStatus : Type 0 where
  valid unresolved conflict : CitationStatus

pub data DocumentStatus : Type 0 where
  draft in_force amended repealed superseded unknown : DocumentStatus

pub data DocumentType : Type 0 where
  law regulation government_resolution ministerial_order supreme_court_decision : DocumentType
  constitutional_court_decision treaty interpretation other : DocumentType

pub data VersionStatus : Type 0 where
  draft published superseded withdrawn : VersionStatus

pub data ParseReviewStatus : Type 0 where
  pending accepted rejected needs_revision : ParseReviewStatus

pub data IngestJobType : Type 0 where
  fetch parse index revalidate : IngestJobType

pub data IngestJobStatus : Type 0 where
  pending running succeeded failed cancelled : IngestJobStatus

-- The place of a node type in the declaration; distinct types have distinct places.
abbrev pub ordinal : LegalNodeType → ℕ
ordinal document = 0
ordinal book = 1
ordinal part = 2
ordinal chapter = 3
ordinal section = 4
ordinal article = 5
ordinal paragraph = 6
ordinal clause = 7
ordinal sub_clause = 8
ordinal annex = 9

-- `a === b` on node types.
abbrev pub same_type : LegalNodeType → LegalNodeType → Bool
same_type a b = eqb (ordinal a) (ordinal b)

-- `status === VersionStatus.PUBLISHED`
abbrev pub is_published : VersionStatus → Bool
is_published VersionStatus.published = true
is_published _ = false

-- `status === CitationStatus.VALID`
abbrev pub is_valid_status : CitationStatus → Bool
is_valid_status CitationStatus.valid = true
is_valid_status _ = false

-- `status === ParseReviewStatus.PENDING`
abbrev pub is_pending : ParseReviewStatus → Bool
is_pending ParseReviewStatus.pending = true
is_pending _ = false
