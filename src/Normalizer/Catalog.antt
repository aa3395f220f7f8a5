-- ===== src/Normalizer/Catalog.antt =====
-- packages/citation-normalizer/src: `catalog.ts`, `instruments.mn.ts`, `types.ts` and
-- `rule-based-normalizer.ts`. Tokens come from `tokenizeCitation`, whose platform is a parameter.
pub mod Sorted
pub mod Matching
use tore_legal_data_engine.Prelude.{
  ℕ, zero, suc, ◌+◌, String, Option, none, some, List, [], ◌∷◌, ◌++◌, map, Bool, true, false, ◌||◌,
  ◌&&◌, if◌then◌else◌, ◌==◌, eqb, ltb, length, take, drop, is_empty,
}
use tore_legal_data_engine.Prelude.Keys.{has}
use tore_legal_data_engine.Prelude.Text.{◌<>◌, join, utf16_length}
use tore_legal_data_engine.Prelude.Result.{DomainError, Result, ok, err, ◌>>=◌, ◌>>◌}
use tore_legal_data_engine.Normalizer.Text.{lemma_token}
use tore_legal_data_engine.Normalizer.Locator.{Locator, parse_locator}

pub data CitationDocumentType : Type 0 where
  law constitution resolution order treaty administrative_act other : CitationDocumentType

pub record LegalInstrument : Type 0 where
  pub code : String
  pub country : String
  pub jurisdiction : String
  pub document_type : CitationDocumentType
  pub aliases : List String

pub record CanonicalCitation : Type 0 where
  pub country : Option String
  pub jurisdiction : Option String
  pub code : Option String
  pub document_type : Option CitationDocumentType
  pub locator : Locator
  pub original_text : String

pub record CompiledAlias : Type 0 where
  pub tokens : List String
  pub instrument : LegalInstrument

abbrev pub joined_length : CompiledAlias → ℕ
joined_length a = utf16_length (join " " a.tokens)

-- The order of `aliases.sort`: `a` may not stand before `b`.
abbrev pub comes_after : CompiledAlias → CompiledAlias → Bool
comes_after a b =
    ltb (length a.tokens) (length b.tokens)
    || (eqb (length a.tokens) (length b.tokens) && ltb (joined_length a) (joined_length b))

-- A stable sort.
unfoldable pub insert : CompiledAlias → List CompiledAlias → List CompiledAlias
insert a [] = a ∷ []
insert a (b ∷ rest) = let more = insert a rest in if comes_after a b then b ∷ more else a ∷ b ∷ rest

unfoldable pub sort_aliases : List CompiledAlias → List CompiledAlias
unfolding insert
sort_aliases [] = []
sort_aliases (a ∷ rest) = insert a (sort_aliases rest)

-- `haystack` begins with `needle`: the inner loop of `indexOfSequence`.
unfoldable pub begins_with : List String → List String → Bool
begins_with [] haystack = true
begins_with (x ∷ needle) [] = false
begins_with (x ∷ needle) (y ∷ haystack) = y == x && begins_with needle haystack

abbrev shift : Option ℕ → Option ℕ
shift none = none
shift (some n) = some (suc n)

unfoldable pub index_from : List String → List String → Option ℕ
unfolding begins_with
index_from needle [] = none
index_from needle (x ∷ haystack) =
    let later = index_from needle haystack in
    if begins_with needle (x ∷ haystack) then some 0 else shift later

-- `none` stands for -1.
unfoldable pub index_of_sequence : List String → List String → Option ℕ
unfolding index_from
index_of_sequence haystack [] = none
index_of_sequence haystack (x ∷ needle) = index_from (x ∷ needle) haystack

pub record InstrumentMatch : Type 0 where
  pub instrument : LegalInstrument
  pub rest : List String

abbrev pub match_at : List String → CompiledAlias → ℕ → InstrumentMatch
match_at tokens a index = record {
  instrument = a.instrument;
  rest = take index tokens ++ drop (index + length a.tokens) tokens;
}

-- What is done with the index of an alias; `later` is what the aliases after it give.
unfoldable pub match_or :
    List String → CompiledAlias → Option InstrumentMatch → Option ℕ → Option InstrumentMatch
match_or tokens a later none = later
match_or tokens a later (some index) = some (match_at tokens a index)

-- The loop of `matchInstrument` over the aliases.
unfoldable pub match_aliases : List String → List CompiledAlias → Option InstrumentMatch
unfolding index_of_sequence match_or
match_aliases tokens [] = none
match_aliases tokens (a ∷ rest) =
    match_or tokens a (match_aliases tokens rest)
      (index_of_sequence (map lemma_token tokens) a.tokens)

abbrev instrument_of : String → CitationDocumentType → List String → LegalInstrument
instrument_of code document_type aliases = record {
  code = code;
  country = "MN";
  jurisdiction = "MN";
  document_type = document_type;
  aliases = aliases;
}

abbrev pub mongolia_instruments : List LegalInstrument
mongolia_instruments =
    instrument_of "CRIMINAL_CODE" law
      ("эх" ∷ "эрүүгийн хууль" ∷ "criminal code" ∷ "mongolian criminal code" ∷ [])
    ∷ instrument_of "CIVIL_CODE" law
        ("их" ∷ "иргэний хууль" ∷ "civil code" ∷ "mongolian civil code" ∷ [])
    ∷ instrument_of "CONSTITUTION" constitution
        ("үх" ∷ "үндсэн хууль" ∷ "constitution" ∷ "constitution of mongolia" ∷ [])
    ∷ instrument_of "CRIMINAL_PROCEDURE" law (
        "эххштх" ∷ "эрүүгийн хэрэг хянан шийдвэрлэх тухай хууль" ∷ "criminal procedure"
        ∷ "criminal procedure code" ∷ [])
    ∷ instrument_of "ADMINISTRATIVE_PROCEDURE" law (
        "зхшхштх" ∷ "захиргааны хэрэг шүүхэд хянан шийдвэрлэх тухай хууль"
        ∷ "administrative procedure" ∷ "administrative procedure code" ∷ [])
    ∷ instrument_of "GOVERNMENT_RESOLUTION" resolution
        ("згт" ∷ "засгийн газрын тогтоол" ∷ "government resolution" ∷ [])
    ∷ instrument_of "MINISTERIAL_ORDER" order
        ("сайдын тушаал" ∷ "ministerial order" ∷ "minister's order" ∷ [])
    ∷ instrument_of "INTERNATIONAL_TREATY" treaty
        ("олон улсын гэрээ" ∷ "international treaty" ∷ "treaty" ∷ [])
    ∷ []

module _ (tokenize_citation : String → List String) where
  -- The loop over the aliases of an instrument; `seen` are the keys of those before.
  unfoldable pub compile_aliases : LegalInstrument → List String → List String → List CompiledAlias
  compile_aliases instrument seen [] = []
  compile_aliases instrument seen (alias ∷ rest) =
      let tokens = map lemma_token (tokenize_citation alias) in
      let key = join " " tokens in
      let same = compile_aliases instrument seen rest in
      let more = compile_aliases instrument (key ∷ seen) rest in
      if is_empty tokens
      then same
      else if has key seen
      then same
      else record { tokens = tokens; instrument = instrument } ∷ more

  -- The loop over the instruments, before the sort.
  unfoldable pub compile_from : List String → List LegalInstrument → Result (List CompiledAlias)
  unfolding compile_aliases
  compile_from codes [] = ok []
  compile_from codes (instrument ∷ rest) =
      if has instrument.code codes
      then err
          (record { code = "Error"; message = "duplicate instrument code: " <> instrument.code })
      else do
        more ← compile_from (instrument.code ∷ codes) rest
        ok (compile_aliases instrument [] instrument.aliases ++ more)

  -- `compileInstrumentCatalog`; the map of the codes is read by nothing.
  unfoldable pub compile_instrument_catalog : List LegalInstrument → Result (List CompiledAlias)
  unfolding compile_from sort_aliases
  compile_instrument_catalog instruments = do
    compiled ← compile_from [] instruments
    ok (sort_aliases compiled)

  abbrev citation_of : String → List String → Option InstrumentMatch → CanonicalCitation
  citation_of text tokens none = record {
    country = none;
    jurisdiction = none;
    code = none;
    document_type = none;
    locator = parse_locator tokens;
    original_text = text;
  }
  citation_of text tokens (some m) = record {
    country = some m.instrument.country;
    jurisdiction = some m.instrument.jurisdiction;
    code = some m.instrument.code;
    document_type = some m.instrument.document_type;
    locator = parse_locator m.rest;
    original_text = text;
  }

  -- `RuleBasedCitationNormalizer.normalize` with a catalog
  unfoldable pub normalize : List CompiledAlias → String → CanonicalCitation
  unfolding match_aliases
  normalize catalog text =
      citation_of text (tokenize_citation text) (match_aliases (tokenize_citation text) catalog)
