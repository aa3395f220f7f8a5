-- ===== src/Corpus/Store.antt =====
-- The tables of the corpus and actions on them. An action may throw; what it wrote before stays,
-- unless it ran in a transaction (src/infrastructure/prisma/unit-of-work.ts).
use tore_legal_data_engine.Prelude.{
  ℕ, String, List, [], ◌∷◌, Bool, if◌then◌else◌, ◌==◌, ◌≡◌, refl, ◌∙◌,
}
use tore_legal_data_engine.Prelude.Result.{DomainError, Result, ok, err}
use tore_legal_data_engine.Domain.Entities.{
  FlatNode, LegalDocument, LegalDocumentVersion, CitationRecord, ParseReview, EngineAuditLog,
  IngestJob,
}

-- An archived file: `ArchiveRecord` and the bytes under its key.
pub record ArchiveEntry : Type 0 where
  pub archive_id : String
  pub sha256 : String
  pub original_url : String
  pub retrieved_at : String
  pub mime_type : String
  pub original_file_name : String
  pub bytes : List ℕ

-- The rows of each table in the order of their creation; `next` numbers the identifiers drawn.
-- The archive is kept with them; a transaction does not write it.
pub record Store : Type 0 where
  pub source_known : Bool
  pub documents : List LegalDocument
  pub versions : List LegalDocumentVersion
  pub nodes : List FlatNode
  pub citations : List CitationRecord
  pub reviews : List ParseReview
  pub audits : List EngineAuditLog
  pub jobs : List IngestJob
  pub archives : List ArchiveEntry
  pub next : ℕ

abbrev pub Action : Type 0 → Type 0
Action A = Store → Result A × Store

infixl 5 ◌>>=◌ ◌>>◌
-- After an error the rest does not run; the store keeps what was written.
abbrev pub after : {A B : Type 0} → Result A × Store → (A → Action B) → Result B × Store
after (ok a, s) f = f a s
after (err e, s) f = (err e, s)

abbrev pub ◌>>=◌ : {A B : Type 0} → Action A → (A → Action B) → Action B
◌>>=◌ m f s = after (m s) f

abbrev pub ◌>>◌ : {B : Type 0} → Action (Unit {0}) → Action B → Action B
◌>>◌ m k = m >>= λ _. k

abbrev pub pure : {A : Type 0} → A → Action A
pure a s = (ok a, s)

abbrev pub raise : {A : Type 0} → DomainError → Action A
raise e s = (err e, s)

abbrev pub lift : {A : Type 0} → Result A → Action A
lift r s = (r, s)

abbrev pub gets : {A : Type 0} → (Store → A) → Action A
gets f s = (ok (f s), s)

-- `prisma.$transaction`: an error leaves the store as it was.
abbrev pub rolled_back : {A : Type 0} → Store → Result A × Store → Result A × Store
rolled_back s (ok a, t) = (ok a, t)
rolled_back s (err e, t) = (err e, s)

unfoldable pub transaction : {A : Type 0} → Action A → Action A
transaction m s = rolled_back s (m s)

-- `upsert` by id: a row with the id is replaced where it stands, or the row is added at the end.
module _ {A : Type 0} (id_of : A → String) where
  unfoldable pub upsert : A → List A → List A
  upsert row [] = row ∷ []
  upsert row (x ∷ xs) = if id_of x == id_of row then row ∷ xs else x ∷ upsert row xs

-- An action that succeeds is a first step that succeeds and the rest from there.
pub bind-eq-ok :
    {A B : Type 0} (m : Action A) (f : A → Action B) (s t : Store) {b : B}
    → (m >>= f) s ≡ (ok b, t)
    → (a : A) × (u : Store) × (m s ≡ (ok a, u)) × (f a u ≡ (ok b, t))
bind-eq-ok {A} {B} m f s t {b} h = go (m s) refl h
  where
    go :
        (r : Result A × Store)
        → m s ≡ r
        → after r f ≡ (ok b, t)
        → (a : A) × (u : Store) × (m s ≡ (ok a, u)) × (f a u ≡ (ok b, t))
    go (ok a, u) e k = (a, u, e, k)
    go (err x, u) e k = cc

-- A transaction that fails has written nothing.
pub transaction-err :
    {A : Type 0} (m : Action A) (s t : Store) (e : DomainError)
    → transaction m s ≡ (err e, t)
    → t ≡ s
unfolding transaction
transaction-err {A} m s t e h = go (m s) h
  where
    go : (r : Result A × Store) → rolled_back s r ≡ (err e, t) → t ≡ s
    go (ok a, u) k = cc
    go (err x, u) k = cc

-- A transaction that succeeds is its body.
pub transaction-ok :
    {A : Type 0} (m : Action A) (s t : Store) (a : A)
    → transaction m s ≡ (ok a, t)
    → m s ≡ (ok a, t)
unfolding transaction
transaction-ok {A} m s t a h = go (m s) refl h
  where
    go : (r : Result A × Store) → m s ≡ r → rolled_back s r ≡ (ok a, t) → m s ≡ (ok a, t)
    go (ok b, u) k h = k ∙ h
    go (err x, u) k h = cc
