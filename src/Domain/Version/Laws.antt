-- ===== src/Domain/Version/Laws.antt =====
-- What the version rules guarantee.
use tore_legal_data_engine.Prelude.{
  ℕ, ◌≤◌, String, Option, none, some, List, [], ◌∷◌, Bool, true, false, ◌&&◌, ◌≡◌, ◌≢◌, ◌⊎◌, ◌↔◌,
  inl, inr, refl, arith, keep, truthy, or_else, length, eq_iff,
}
use tore_legal_data_engine.Prelude.Int.{ℤ, pos, negsuc, leb_ℤ}
use tore_legal_data_engine.Prelude.Text.{is_blank}
use tore_legal_data_engine.Prelude.Result.{Result-cases, ok}
use tore_legal_data_engine.Domain.Enums.{is_published}
use tore_legal_data_engine.Domain.Entities.{LegalDocumentVersion}
use tore_legal_data_engine.Domain.Version.{
  at, bound, reaches, intervals_overlap, clear_of, pairwise_clear, versions_do_not_overlap,
  version_covers_instant, assert_document_version, parse_optional_instant, bounds_reversed,
}

module _ (parse_date : String → Option ℤ) where
  abbrev pub covers : String → LegalDocumentVersion → Bool
  covers t v = version_covers_instant parse_date v.effective_from v.effective_to t

  overlap_of_covers :
      (a b : LegalDocumentVersion) (t : String)
      → covers t a ≡ true
      → covers t b ≡ true
      → intervals_overlap parse_date a b ≡ true
  unfolding version_covers_instant intervals_overlap bound reaches
  overlap_of_covers a b t h k = ground arith

  none_covers_of_clear :
      (a : LegalDocumentVersion) (vs : List LegalDocumentVersion) (t : String)
      → clear_of parse_date a vs ≡ true
      → covers t a ≡ true
      → length (keep (covers t) vs) ≡ 0
  unfolding clear_of
  none_covers_of_clear a [] t h k = refl
  none_covers_of_clear a (b ∷ vs) t h k =
      ground (arith, none_covers_of_clear a vs t, overlap_of_covers a b t k)

  one_covers_of_clear :
      (vs : List LegalDocumentVersion) (t : String)
      → pairwise_clear parse_date vs ≡ true
      → length (keep (covers t) vs) ≤ 1
  unfolding pairwise_clear
  one_covers_of_clear [] t h = omega arith
  one_covers_of_clear (a ∷ vs) t h =
      ground (arith, one_covers_of_clear vs t, none_covers_of_clear a vs t)

  -- Where `versionsDoNotOverlap` accepts a document's versions, at most one of its published
  -- versions covers any given instant.
  pub one_published_covers :
      (versions : List LegalDocumentVersion) (t : String)
      → versions_do_not_overlap parse_date versions ≡ true
      → length (keep (covers t) (keep (λ v. is_published v.status) versions)) ≤ 1
  unfolding versions_do_not_overlap
  one_published_covers versions t h =
      one_covers_of_clear (keep (λ v. is_published v.status) versions) t h

  -- Two published versions with known bounds, the first of which ends at the instant at which the
  -- second begins, and begins no later than the second ends: they are refused together, although
  -- no instant is covered by both.
  pub adjacent_versions_overlap :
      (a b : LegalDocumentVersion) (lower middle upper : ℤ)
      → is_published a.status ≡ true
      → is_published b.status ≡ true
      → bound parse_date a.effective_from ≡ at lower
      → bound parse_date a.effective_to ≡ at middle
      → bound parse_date b.effective_from ≡ at middle
      → bound parse_date b.effective_to ≡ at upper
      → leb_ℤ lower upper ≡ true
      → (versions_do_not_overlap parse_date (a ∷ b ∷ []) ≡ false)
        × ((t : String) → (covers t a && covers t b) ≡ false)
  unfolding versions_do_not_overlap pairwise_clear clear_of intervals_overlap reaches
  adjacent_versions_overlap a b lower middle upper pa pb al am bm bu le =
      (ground arith, λ t. unfold version_covers_instant bound in ground arith)

  -- An optional instant as the checks read it: absent, or a text that parses.
  abbrev pub Reads : Option String → Option ℤ → Type 0
  Reads value instant =
      ((truthy value ≡ false) × (instant ≡ none))
      ⊎ ((truthy value ≡ true) × (instant ≡ parse_date (or_else value "")) × (instant ≢ none))

  pub record IsSound (v : LegalDocumentVersion) : Type 0 where
    pub numbered : 1 ≤ v.version_number
    pub hashed : is_blank v.content_hash ≡ false
    pub parsed_by : is_blank v.parser_id ≡ false
    pub archived : is_blank v.archive_record_id ≡ false
    pub from : Option ℤ
    pub to : Option ℤ
    pub reads_from : Reads v.effective_from from
    pub reads_to : Reads v.effective_to to
    pub ordered : bounds_reversed from to ≡ false

  parse_optional_instant_iff :
      (value : Option String) (field : String) (i : Option ℤ)
      → (parse_optional_instant parse_date value field ≡ ok i) ↔ Reads value i
  unfolding parse_optional_instant
  parse_optional_instant_iff value field i = (λ h. ground arith, λ h. ground arith)

  -- `assertDocumentVersion` returns without an error exactly when the number is at least 1, hash,
  -- parser and archive record are not blank, each bound is absent or parses, and the bounds are in
  -- order, where a bound at the epoch counts as absent.
  pub assert_document_version_iff :
      (v : LegalDocumentVersion) → (assert_document_version parse_date v ≡ ok tt) ↔ IsSound v
  unfolding assert_document_version
  assert_document_version_iff v = (
    λ h. elim (Result-cases (parse_optional_instant parse_date v.effective_from "effectiveFrom")) [
      | inr (e, bad) ↦ absurd (ground arith)
      | inl (f, rf) ↦
          elim (Result-cases (parse_optional_instant parse_date v.effective_to "effectiveTo")) [
            | inr (e, bad) ↦ absurd (ground arith)
            | inl (t, rt) ↦ record {
              numbered = ground arith;
              hashed = ground arith;
              parsed_by = ground arith;
              archived = ground arith;
              from = f;
              to = t;
              reads_from = (parse_optional_instant_iff v.effective_from "effectiveFrom" f).0 rf;
              reads_to = (parse_optional_instant_iff v.effective_to "effectiveTo" t).0 rt;
              ordered = ground arith;
            }
          ]
    ],
    λ w.
        rw
          (
            w.hashed,
            w.parsed_by,
            w.archived,
            (parse_optional_instant_iff v.effective_from "effectiveFrom" w.from).1 w.reads_from,
            (parse_optional_instant_iff v.effective_to "effectiveTo" w.to).1 w.reads_to,
            w.ordered,
          )
          (ground arith),
  )

  -- A version that is sound but for its bounds, begins at the epoch and ends before it, is
  -- accepted: zero is read as absent.
  pub epoch_bound_unordered :
      (v : LegalDocumentVersion) (from to : String) (n : ℕ)
      → IsSound (record v { effective_from = none; effective_to = none })
      → v.effective_from ≡ some from
      → v.effective_to ≡ some to
      → parse_date from ≡ some (pos 0)
      → parse_date to ≡ some (negsuc n)
      → (from ≢ "") × (to ≢ "")
      → assert_document_version parse_date v ≡ ok tt
  epoch_bound_unordered v from to n w vf vt pf pt h = (assert_document_version_iff v).1 (record {
    numbered = w.numbered;
    hashed = w.hashed;
    parsed_by = w.parsed_by;
    archived = w.archived;
    from = some (pos 0);
    to = some (negsuc n);
    reads_from = ground (arith, eq_iff from "");
    reads_to = ground (arith, eq_iff to "");
    ordered = unfold bounds_reversed in refl;
  })
