-- ===== src/Domain/Version.antt =====
-- src/domain/services/document-version.ts: the rules on one version and on a document's versions.
-- `Date.parse` is the parameter `parse_date`, `none` for NaN; instants may lie before the epoch.
-- A version number is a natural number, so the test that it is an integer has no counterpart.
pub mod Laws
use tore_legal_data_engine.Prelude.{
  ℕ, String, Option, none, some, List, [], ◌∷◌, Bool, true, false, not, ◌&&◌, ◌||◌, if◌then◌else◌,
  ltb, keep, truthy, ◌==◌, or_else,
}
use tore_legal_data_engine.Prelude.Int.{ℤ, leb_ℤ, ltb_ℤ, is_zero}
use tore_legal_data_engine.Prelude.Text.{is_blank, ◌<>◌}
use tore_legal_data_engine.Prelude.Result.{Result, ok, err, refuse_if, invariant_error, ◌>>=◌, ◌>>◌}
use tore_legal_data_engine.Domain.Enums.{is_published}
use tore_legal_data_engine.Domain.Entities.{LegalDocumentVersion}

-- The key of a canonicalization: `Pick<…, "contentHash" | "archiveRecordId" | "parserId">`.
unfoldable pub is_canonicalization_update : LegalDocumentVersion → LegalDocumentVersion → Bool
is_canonicalization_update existing next =
    (existing.content_hash == next.content_hash)
    && ((existing.archive_record_id == next.archive_record_id)
        && not (existing.parser_id == next.parser_id))

-- `versionHasAsOfProvenance`: both bounds are known.
unfoldable pub version_has_as_of_provenance : Option String → Option String → Bool
version_has_as_of_provenance from to = truthy from && truthy to

-- `from && to && from > to`: an instant of zero counts as missing.
unfoldable pub bounds_reversed : Option ℤ → Option ℤ → Bool
bounds_reversed (some from) (some to) = not (is_zero from) && (not (is_zero to) && ltb_ℤ to from)
bounds_reversed _ _ = false

-- A bound of `intervalsOverlap`: a missing one is infinite, one that does not parse is NaN.
pub data Bound : Type 0 where
  infinite not_a_number : Bound
  at : ℤ → Bound

-- `lower <= upper` where a missing lower bound is -∞ and a missing upper bound +∞.
unfoldable pub reaches : Bound → Bound → Bool
reaches not_a_number upper = false
reaches infinite not_a_number = false
reaches infinite _ = true
reaches (at lower) infinite = true
reaches (at lower) not_a_number = false
reaches (at lower) (at upper) = leb_ℤ lower upper

module _ (parse_date : String → Option ℤ) where
  -- `parseOptionalInstant`
  unfoldable pub parse_optional_instant : Option String → String → Result (Option ℤ)
  parse_optional_instant none field = ok none
  parse_optional_instant (some value) field =
      if value == "" then ok none else elim (parse_date value) [
        | none ↦ err (invariant_error (field <> " is not a valid ISO-8601 timestamp"))
        | some instant ↦ ok (some instant)
      ]

  unfoldable pub assert_document_version : LegalDocumentVersion → Result (Unit {0})
  unfolding parse_optional_instant bounds_reversed
  assert_document_version version = do
    refuse_if (ltb version.version_number 1) "versionNumber must be an integer >= 1"
    refuse_if (is_blank version.content_hash) "contentHash is required"
    refuse_if (is_blank version.parser_id) "parserId is required"
    refuse_if (is_blank version.archive_record_id) "archiveRecordId is required"
    from ← parse_optional_instant version.effective_from "effectiveFrom"
    to ← parse_optional_instant version.effective_to "effectiveTo"
    refuse_if (bounds_reversed from to) "effectiveFrom must be <= effectiveTo"

  unfoldable pub bound : Option String → Bound
  bound none = infinite
  bound (some value) =
      if value == ""
      then infinite
      else elim (parse_date value) [ none ↦ not_a_number | some instant ↦ at instant ]

  unfoldable pub intervals_overlap : LegalDocumentVersion → LegalDocumentVersion → Bool
  unfolding bound reaches
  intervals_overlap a b =
      reaches (bound a.effective_from) (bound b.effective_to)
      && reaches (bound b.effective_from) (bound a.effective_to)

  -- The inner loop of `versionsDoNotOverlap`.
  unfoldable pub clear_of : LegalDocumentVersion → List LegalDocumentVersion → Bool
  clear_of a [] = true
  clear_of a (b ∷ rest) =
      let more = clear_of a rest in if intervals_overlap a b then false else more

  unfoldable pub pairwise_clear : List LegalDocumentVersion → Bool
  unfolding clear_of
  pairwise_clear [] = true
  pairwise_clear (a ∷ rest) =
      let more = pairwise_clear rest in if clear_of a rest then more else false

  unfoldable pub versions_do_not_overlap : List LegalDocumentVersion → Bool
  unfolding pairwise_clear
  versions_do_not_overlap versions = pairwise_clear (keep (λ v. is_published v.status) versions)

  -- `versionCoversInstant`: from ≤ instant < to, all three known.
  unfoldable pub version_covers_instant : Option String → Option String → String → Bool
  unfolding version_has_as_of_provenance
  version_covers_instant from to instant_iso = elim (parse_date instant_iso) [
    | none ↦ false
    | some instant ↦
        if not (version_has_as_of_provenance from to)
        then false
        else elim (parse_date (or_else from "")) [
          | none ↦ false
          | some lower ↦ elim (parse_date (or_else to "")) [
            | none ↦ false
            | some upper ↦ leb_ℤ lower instant && ltb_ℤ instant upper
          ]
        ]
  ]
