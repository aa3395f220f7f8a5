-- ===== src/Examples/Normalizing.antt =====
-- A citation of the criminal code.
use tore_legal_data_engine.Prelude.{
  String, some, List, [], ◌∷◌, ◌++◌, map, ◌≡◌, refl, inl, ◌==◌, if◌then◌else◌,
}
use tore_legal_data_engine.Prelude.Text.{join}
use tore_legal_data_engine.Prelude.Result.{ok}
use tore_legal_data_engine.Normalizer.Text.{lemma_token, abbreviations, expand}
use tore_legal_data_engine.Normalizer.Locator.{parse_locator}
use tore_legal_data_engine.Normalizer.Locator.Parts.{locator_of, parse_locator-join}
use tore_legal_data_engine.Normalizer.Catalog.{
  LegalInstrument, CompiledAlias, InstrumentMatch, law, compile_instrument_catalog, match_aliases,
}
use tore_legal_data_engine.Normalizer.Catalog.Sorted.{IsShorter}
use tore_legal_data_engine.Normalizer.Catalog.Matching.{
  IsMatch, Among, compile_instrument_catalog-IsMatch,
}

parse_locator-join_example :
    parse_locator (join "." ("17" ∷ "1" ∷ "2" ∷ "3" ∷ []) ∷ [])
    ≡ locator_of ("17" ∷ "1" ∷ "2" ∷ "3" ∷ [])
parse_locator-join_example =
    parse_locator-join "17" ("1" ∷ "2" ∷ "3" ∷ []) (refl, refl)
      ((refl, refl), ((refl, refl), ((refl, refl), tt)))

abbrev words : String → List String
words alias = if alias == "criminal code" then "criminal" ∷ "code" ∷ [] else "эх" ∷ []

abbrev criminal_code : LegalInstrument
criminal_code = record {
  code = "CRIMINAL_CODE";
  country = "MN";
  jurisdiction = "MN";
  document_type = law;
  aliases = "эх" ∷ "criminal code" ∷ [];
}

abbrev long_alias : CompiledAlias
long_alias = record { tokens = "criminal" ∷ "code" ∷ []; instrument = criminal_code }

abbrev short_alias : CompiledAlias
short_alias = record { tokens = "эх" ∷ []; instrument = criminal_code }

compiled :
    compile_instrument_catalog words (criminal_code ∷ []) ≡ ok (long_alias ∷ short_alias ∷ [])
unfolding compile_instrument_catalog lemma_token join
compiled = refl

lemmas_of :
    map lemma_token ("criminal" ∷ "code" ∷ "17.1" ∷ []) ≡ [] ++ (long_alias.tokens ++ ("17.1" ∷ []))
unfolding lemma_token
lemmas_of = refl

compile_instrument_catalog-IsMatch_example :
    (m : InstrumentMatch) × (a : CompiledAlias) × (match_aliases
        ("criminal" ∷ "code" ∷ "17.1" ∷ [])
        (long_alias ∷ short_alias ∷ [])
      ≡ some m)
    × Among a (long_alias ∷ short_alias ∷ [])
    × IsMatch ("criminal" ∷ "code" ∷ "17.1" ∷ []) a m
    × IsShorter a long_alias
compile_instrument_catalog-IsMatch_example =
    compile_instrument_catalog-IsMatch words (criminal_code ∷ []) (long_alias ∷ short_alias ∷ [])
      ("criminal" ∷ "code" ∷ "17.1" ∷ []) long_alias [] ("17.1" ∷ []) compiled (inl refl) lemmas_of

-- The longer abbreviation is never met: the shorter one inside it is replaced first.
subpara_lem : expand abbreviations "subpara." ≡ "sub paragraph "
unfolding expand
subpara_lem = refl
