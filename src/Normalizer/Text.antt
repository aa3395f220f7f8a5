-- ===== src/Normalizer/Text.antt =====
-- packages/citation-normalizer/src: `text.ts` and `tokenize.ts`. What the platform knows of Unicode is a
-- parameter: the normal form NFKC, lower case, and the letters (`\p{L}`).
use Prim.Native.Char.{Char, code}
use Prim.Native.String.{[], ◌∷◌}
use tore_legal_data_engine.Prelude.{
  ℕ, zero, suc, ◌-◌, String, Option, none, some, List, ◌++◌, Bool, true, false, ◌&&◌, ◌||◌,
  if◌then◌else◌, leb, eqb, or_else, ◌==◌, is_empty,
}
use tore_legal_data_engine.Prelude.Maps.{StringMap, get}
use tore_legal_data_engine.Prelude.Text.{◌<>◌, trim, collapse_spaces}

-- `text.replace(/[…]/g, to)`
unfoldable pub replace_chars : (ℕ → Bool) → String → String → String
replace_chars p to [] = []
replace_chars p to (c ∷ s) =
    let rest = replace_chars p to s in if p (code c) then to <> rest else c ∷ rest

unfoldable pub starts_with : String → String → Bool
starts_with [] s = true
starts_with (a ∷ pattern) [] = false
starts_with (a ∷ pattern) (b ∷ s) = eqb (code a) (code b) && starts_with pattern s

abbrev size : String → ℕ
size [] = 0
size (c ∷ s) = suc (size s)

-- `haystack.split(needle).join(replacement)`; the number is that of characters to skip.
unfoldable pub replace_from : String → String → ℕ → String → String
unfolding starts_with
replace_from needle replacement skip [] = []
replace_from needle replacement (suc skip) (c ∷ s) = replace_from needle replacement skip s
replace_from needle replacement zero (c ∷ s) =
    let after = replace_from needle replacement (size needle - 1) s in
    let rest = replace_from needle replacement 0 s in
    if starts_with needle (c ∷ s) then replacement <> after else c ∷ rest

unfoldable pub replace_all_literal : String → String → String → String
unfolding replace_from
replace_all_literal haystack needle replacement = replace_from needle replacement 0 haystack

abbrev pub abbreviations : List (String × String)
abbreviations =
    List.◌∷◌ ("art.", "article")
      (List.◌∷◌ ("para.", "paragraph")
        (List.◌∷◌ ("subpara.", "subparagraph")
          (List.◌∷◌ ("sec.", "section") (List.◌∷◌ ("no.", "number") List.[]))))

abbrev pub lemmas : StringMap String
lemmas =
    List.◌∷◌ ("хуулийн", "хууль")
      (List.◌∷◌ ("зүйлийн", "зүйл")
        (List.◌∷◌ ("хэсгийн", "хэсэг")
          (List.◌∷◌ ("заалтын", "заалт")
            (List.◌∷◌ ("цэгийн", "цэг")
              (List.◌∷◌ ("тогтоолын", "тогтоол")
                (List.◌∷◌ ("тушаалын", "тушаал") (List.◌∷◌ ("гэрээний", "гэрээ") List.[])))))))

unfoldable pub lemma_token : String → String
unfolding get
lemma_token token = or_else (get token lemmas) token

-- The loop over the abbreviations.
unfoldable pub expand : List (String × String) → String → String
unfolding replace_all_literal
expand List.[] text = text
expand (List.◌∷◌ (from, to) rest) text =
    expand rest (replace_all_literal text from (" " <> to <> " "))

abbrev is_quote : ℕ → Bool
is_quote c = eqb c 0xab || (eqb c 0xbb || (eqb c 0x201c || (eqb c 0x201d || eqb c 0x22)))

abbrev is_apostrophe : ℕ → Bool
is_apostrophe c = eqb c 0x27 || eqb c 0x2019

abbrev pub is_digit : ℕ → Bool
is_digit c = leb b'0' c && leb c b'9'

abbrev pub is_separator : ℕ → Bool
is_separator c = eqb c b'.' || eqb c b'-'

abbrev is_paren : ℕ → Bool
is_paren c = eqb c b'(' || eqb c b')'

-- Where a scan for tokens stands: outside of one, in a number, at a separator after one, in a word.
pub data Scan : Type 0 where
  outside : Scan
  number word : String → Scan
  separated : String → Char → Scan

abbrev pub Scanned : Type 0
Scanned = List String × Scan

abbrev one : String → List String
one s = List.◌∷◌ s List.[]

-- The parts of a number between separators, the empty ones left out.
unfoldable pub split_parts : String → String → List String
split_parts part [] = if part == "" then List.[] else one part
split_parts part (c ∷ s) =
    let rest = split_parts "" s in
    let more = split_parts (part <> c ∷ []) s in
    if is_separator (code c) then (if part == "" then rest else List.◌∷◌ part rest) else more

abbrev pub some_if : List String → Option (List String)
some_if parts = if is_empty parts then none else some parts

unfoldable pub parse_number_parts : String → Option (List String)
unfolding split_parts
parse_number_parts [] = none
parse_number_parts (c ∷ s) = if is_digit (code c) then some_if (split_parts "" (c ∷ s)) else none

module _ (nfkc to_lower_case : String → String) (is_letter : ℕ → Bool) where
  unfoldable pub fold_citation_text : String → String
  unfolding replace_chars expand
  fold_citation_text text =
      let folded = replace_chars is_quote " " (to_lower_case (nfkc text)) in
      let plain = replace_chars is_apostrophe "" folded in
      let marked = replace_chars (λ c. eqb c 0xa7) " paragraph " plain in
      trim (collapse_spaces (expand abbreviations (replace_chars (λ c. eqb c 0x2116) " " marked)))

  -- A character that no token is open for.
  unfoldable pub begin_token : Char → Scanned
  begin_token c =
      if is_digit (code c)
      then (List.[], number (c ∷ []))
      else if is_letter (code c)
      then (List.[], word (c ∷ []))
      else if is_paren (code c)
      then (one (c ∷ []), outside)
      else (List.[], outside)

  abbrev emit : String → Scanned → Scanned
  emit t (ts, st) = (List.◌∷◌ t ts, st)

  -- One character of `/\d+(?:[.-]\d+)*|\p{L}+|[()]/gu`
  unfoldable pub feed : Scan → Char → Scanned
  unfolding begin_token
  feed outside c = begin_token c
  feed (number t) c =
      if is_digit (code c)
      then (List.[], number (t <> c ∷ []))
      else if is_separator (code c)
      then (List.[], separated t c)
      else emit t (begin_token c)
  feed (separated t d) c =
      if is_digit (code c) then (List.[], number (t <> d ∷ c ∷ [])) else emit t (begin_token c)
  feed (word t) c =
      if is_letter (code c) then (List.[], word (t <> c ∷ [])) else emit t (begin_token c)

  abbrev flush : Scan → List String
  flush outside = List.[]
  flush (number t) = one t
  flush (separated t d) = one t
  flush (word t) = one t

  -- `text.match(TOKEN_PATTERN) ?? []`
  unfoldable pub scan_tokens : Scan → String → List String
  unfolding feed
  scan_tokens st [] = flush st
  scan_tokens st (c ∷ s) = let (ts, next) = feed st c in ts ++ scan_tokens next s

  unfoldable pub tokenize_citation : String → List String
  unfolding fold_citation_text scan_tokens
  tokenize_citation text = scan_tokens outside (fold_citation_text text)
