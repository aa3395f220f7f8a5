-- ===== src/Examples/Versions.antt =====
-- The version rules and the ranked candidates on concrete data.
use tore_legal_data_engine.Prelude.{
  ◌≤◌, String, Option, none, some, List, [], ◌∷◌, map, false, not, ◌&&◌, ◌≡◌, ◌↔◌, refl, keep,
  length, All, find_first, ◌==◌,
}
use tore_legal_data_engine.Prelude.Int.{pos}
use tore_legal_data_engine.Prelude.Result.{ok}
use tore_legal_data_engine.Prelude.Text.{parse_natural, is_blank}
use tore_legal_data_engine.Prelude.Keys.{Distinct}
use tore_legal_data_engine.Domain.Enums.{VersionStatus, is_published, article}
use tore_legal_data_engine.Domain.Entities.{LegalDocumentVersion, LegalNodeSearchCandidate}
use tore_legal_data_engine.Domain.Version.{
  versions_do_not_overlap, pairwise_clear, clear_of, intervals_overlap, bound, reaches,
  assert_document_version, bounds_reversed,
}
use tore_legal_data_engine.Domain.Version.Laws.{
  covers, one_published_covers, adjacent_versions_overlap, IsSound, assert_document_version_iff,
  epoch_bound_unordered,
}
use tore_legal_data_engine.Domain.OpenQuestion.{provision, outside, filter_and_dedupe_candidates}
use tore_legal_data_engine.Domain.OpenQuestion.Laws.{filter_and_dedupe_candidates_lem}
use tore_legal_data_engine.Examples.Fixtures.{clock, version_at, node_at}

abbrev early : LegalDocumentVersion
early = version_at "v1" 1 (some "10") (some "20") VersionStatus.published

abbrev late : LegalDocumentVersion
late = version_at "v2" 2 (some "30") none VersionStatus.published

abbrev next : LegalDocumentVersion
next = version_at "v2" 2 (some "20") (some "30") VersionStatus.published

one_published_covers_example :
    length (keep (covers clock "15") (keep (λ v. is_published v.status) (early ∷ late ∷ []))) ≤ 1
unfolding versions_do_not_overlap pairwise_clear clear_of intervals_overlap bound reaches
    parse_natural
one_published_covers_example = one_published_covers clock (early ∷ late ∷ []) "15" refl

adjacent_versions_overlap_example :
    (versions_do_not_overlap clock (early ∷ next ∷ []) ≡ false)
    × ((t : String) → (covers clock t early && covers clock t next) ≡ false)
unfolding bound parse_natural
adjacent_versions_overlap_example =
    adjacent_versions_overlap clock early next (pos 10) (pos 20) (pos 30) refl refl refl refl refl
      refl refl

early-IsSound : IsSound clock early
unfolding bounds_reversed is_blank parse_natural
early-IsSound = (assert_document_version_iff clock early).0 (unfold assert_document_version in refl)

assert_document_version_iff_example :
    (assert_document_version clock early ≡ ok tt) ↔ IsSound clock early
assert_document_version_iff_example = assert_document_version_iff clock early

epoch_bound_unordered_example :
    assert_document_version clock (version_at "v3" 3 (some "0") (some "-1") VersionStatus.draft)
    ≡ ok tt
unfolding is_blank parse_natural
epoch_bound_unordered_example =
    epoch_bound_unordered clock (version_at "v3" 3 (some "0") (some "-1") VersionStatus.draft) "0"
      "-1" 0
      ((assert_document_version_iff clock (version_at "v3" 3 none none VersionStatus.draft)).0
        (unfold assert_document_version in refl))
      refl refl refl refl (λ e. absurd (cc), λ e. absurd (cc))

abbrev candidate : String → Option String → Option String → LegalNodeSearchCandidate
candidate version from to = record {
  node = node_at "n1" none article (some "1") "Зорилт" "art-1";
  document_id = "d1";
  version_id = version;
  version_status = VersionStatus.published;
  effective_from = from;
  effective_to = to;
  source_content_hash = "hash";
  parser_id = "parser-1";
  archive_record_id = "archive";
}

abbrev candidates : List LegalNodeSearchCandidate
candidates =
    candidate "v1" (some "10") (some "20")
    ∷ candidate "v2" (some "20") (some "30")
    ∷ candidate "v3" (some "20") (some "40")
    ∷ []

filter_and_dedupe_candidates_example :
    ((k : String)
      → find_first
          (λ c. provision c == k)
          (filter_and_dedupe_candidates clock candidates (some "25"))
        ≡ find_first (λ c. not (outside clock (some "25") c) && (provision c == k)) candidates)
    × Distinct (map provision (filter_and_dedupe_candidates clock candidates (some "25")))
    × All
        (λ c. outside clock (some "25") c ≡ false)
        (filter_and_dedupe_candidates clock candidates (some "25"))
filter_and_dedupe_candidates_example = filter_and_dedupe_candidates_lem clock (some "25") candidates
