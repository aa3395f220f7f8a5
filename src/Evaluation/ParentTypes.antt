-- ===== src/Evaluation/ParentTypes.antt =====
-- src/application/evaluation/parent-types.ts
use tore_legal_data_engine.Prelude.{Option, none, some, List, [], ◌∷◌, Bool, true, false, some_of}
use tore_legal_data_engine.Domain.Enums.{
  LegalNodeType, document, book, part, chapter, section, article, paragraph, clause, sub_clause,
  annex, same_type,
}

-- `ALLOWED_PARENTS`; `none` is its `null`.
abbrev pub allowed_parents : LegalNodeType → Option (List LegalNodeType)
allowed_parents document = none
allowed_parents book = some (document ∷ [])
allowed_parents part = some (document ∷ book ∷ [])
allowed_parents chapter = some (document ∷ part ∷ [])
allowed_parents section = some (chapter ∷ part ∷ document ∷ [])
allowed_parents article = some (document ∷ chapter ∷ section ∷ [])
allowed_parents paragraph = some (article ∷ [])
allowed_parents clause = some (paragraph ∷ [])
allowed_parents sub_clause = some (clause ∷ [])
allowed_parents annex = some (document ∷ chapter ∷ [])

allowed_in : Option (List LegalNodeType) → Option LegalNodeType → Bool
allowed_in none none = true
allowed_in none (some _) = false
allowed_in (some allowed) none = false
allowed_in (some allowed) (some above) = some_of (λ t. same_type t above) allowed

unfoldable pub parent_type_allowed : LegalNodeType → Option LegalNodeType → Bool
unfolding allowed_in
parent_type_allowed child parent = allowed_in (allowed_parents child) parent
