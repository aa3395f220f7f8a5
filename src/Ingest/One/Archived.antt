-- ===== src/Ingest/One/Archived.antt =====
-- Which bytes `ingestOne` reads back from the archive.
use tore_legal_data_engine.Prelude.{
  ℕ, String, Option, none, some, List, [], ◌∷◌, ◌++◌, Bool, true, ◌≡◌, ◌⊎◌, inl, inr, refl, arith,
  sym, ap, ◌∙◌, is_empty, Bool-cases, Option-cases, find_first, ◌==◌, eq_iff, eq_refl,
}
use tore_legal_data_engine.Prelude.Int.{ℤ}
use tore_legal_data_engine.Prelude.Result.{Result, ok}
use tore_legal_data_engine.Domain.Entities.{LegalDocument}
use tore_legal_data_engine.Corpus.Store.{Store, ArchiveEntry}
use tore_legal_data_engine.Corpus.Archive.{
  ArchiveMetadata, archive_store, archive_get, find_by_hash, entry_of,
}
use tore_legal_data_engine.Ingest.Review.{patch_job, is_known}
use tore_legal_data_engine.Ingest.One.{Downloaded, read_back}

find_first-snoc :
    (p : ArchiveEntry → Bool) (xs : List ArchiveEntry) (x : ArchiveEntry)
    → find_first p xs ≡ none
    → p x ≡ true
    → find_first p (xs ++ x ∷ []) ≡ some x
find_first-snoc p [] x h q = rw q refl
find_first-snoc p (y ∷ xs) x h q = elim (Bool-cases (p y)) [
  | inl e ↦ absurd (ground arith)
  | inr e ↦ rw e (find_first-snoc p xs x (ground arith) q)
]

some-inj : {a b : List ℕ} → some a ≡ some b → a ≡ b
some-inj e = cc

patch_job-archives :
    (job stage : String) (s : Store) → (patch_job job stage s).1.archives ≡ s.archives
unfolding patch_job
patch_job-archives job stage s =
    elim (Bool-cases (is_known (find_first (λ j. j.id == job) s.jobs))) [
      | inl e ↦ rw e refl
      | inr e ↦ rw e refl
    ]

-- After a note on a job, the archive gives the same.
patch_job-get :
    (job stage hash : String) (s u : Store) (a : Unit {0})
    → patch_job job stage s ≡ (ok a, u)
    → archive_get hash u ≡ archive_get hash s
unfolding archive_get find_by_hash
patch_job-get job stage hash s u a h =
    let same : u.archives ≡ s.archives =
      sym (ap (λ o. o.1.archives) h) ∙ patch_job-archives job stage s in
    rw same refl

module _ (sha256 : List ℕ → String) where
  -- Bytes that the archive holds under the hash of others once these have been stored in it: those
  -- that it held before, or, if it had none, the others themselves.
  abbrev IsHeld : Store → List ℕ → List ℕ → Type 0
  IsHeld s stored bytes =
      (archive_get (sha256 stored) s ≡ some bytes)
      ⊎ ((archive_get (sha256 stored) s ≡ none) × (bytes ≡ stored))

  -- Such bytes with that hash.
  abbrev pub IsArchived : Store → List ℕ → List ℕ → Type 0
  IsArchived s stored bytes = IsHeld s stored bytes × (sha256 bytes ≡ sha256 stored)

  archive_store-IsHeld :
      (stored bytes : List ℕ) (m : ArchiveMetadata) (s u : Store) (e : ArchiveEntry)
      → archive_store sha256 stored m s ≡ (ok e, u)
      → archive_get (sha256 stored) u ≡ some bytes
      → IsHeld s stored bytes
  unfolding archive_store archive_get find_by_hash
  archive_store-IsHeld stored bytes m s u e h g = elim (Bool-cases (is_empty stored)) [
    | inl void ↦ absurd (ground arith)
    | inr filled ↦ elim (Option-cases (find_by_hash (sha256 stored) s)) [
      | inr (old, there) ↦
          let kept : archive_store sha256 stored m s ≡ (ok old, s) = rw (filled, there) refl in
          inl (ap (λ o. archive_get (sha256 stored) o.1) (sym kept ∙ h) ∙ g)
      | inl absent ↦
          let grown : Store = record s { archives = s.archives ++ entry_of sha256 stored m ∷ [] } in
          let wrote : archive_store sha256 stored m s ≡ (ok (entry_of sha256 stored m), grown) =
            rw (filled, absent) refl in
          let found : find_by_hash (sha256 stored) grown ≡ some (entry_of sha256 stored m) =
            find_first-snoc (λ a. a.sha256 == sha256 stored) s.archives (entry_of sha256 stored m)
              absent (eq_refl (sha256 stored)) in
          let got : archive_get (sha256 stored) grown ≡ some stored = rw found refl in
          let after : archive_get (sha256 stored) grown ≡ some bytes =
            ap (λ o. archive_get (sha256 stored) o.1) (sym wrote ∙ h) ∙ g in
          inr (rw absent refl, some-inj (sym after ∙ got))
    ]
  ]

module _ (parse_date : String → Option ℤ) (uuid : ℕ → String) (parser_id now : String)
    (download : String → Result Downloaded) (decode : List ℕ → String) (sha256 : List ℕ → String)
    (parse : String → List ℕ → String → String → Result LegalDocument) where
  read_back-eq :
      (hash : String) (s u : Store) (bytes : List ℕ)
      → read_back parse_date uuid parser_id now download decode sha256 parse hash s ≡ (ok bytes, u)
      → (archive_get hash s ≡ some bytes) × (sha256 bytes ≡ hash)
  unfolding read_back
  read_back-eq hash s u bytes h = elim (Option-cases (archive_get hash s)) [
    | inl absent ↦ absurd (ground arith)
    | inr (b, there) ↦ ground (arith, eq_iff (sha256 b) hash)
  ]

  -- The steps from the start to the reading.
  pub archived :
      (job : String) (m : ArchiveMetadata) (stored bytes : List ℕ) (e : ArchiveEntry)
      (s s1 s4 s5 s6 : Store) {a b : Unit {0}}
      → patch_job job "DOWNLOADING" s ≡ (ok a, s1)
      → patch_job job "ARCHIVED" s1 ≡ (ok b, s4)
      → archive_store sha256 stored m s4 ≡ (ok e, s5)
      → read_back parse_date uuid parser_id now download decode sha256 parse (sha256 stored) s5
        ≡ (ok bytes, s6)
      → IsArchived sha256 s stored bytes
  archived job m stored bytes e s s1 s4 s5 s6 {a} {b} q1 q4 q5 q6 =
      let (there, same) = read_back-eq (sha256 stored) s5 s6 bytes q6 in
      let before : archive_get (sha256 stored) s4 ≡ archive_get (sha256 stored) s =
        patch_job-get job "ARCHIVED" (sha256 stored) s1 s4 b q4
        ∙ patch_job-get job "DOWNLOADING" (sha256 stored) s s1 a q1 in
      (rw before at (archive_store-IsHeld sha256 stored bytes m s4 s5 e q5 there), same)
