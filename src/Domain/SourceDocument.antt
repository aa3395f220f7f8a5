-- ===== src/Domain/SourceDocument.antt =====
-- src/domain/services/source-document.ts: what kind of file was downloaded. Bytes are numbers below
-- 256; `decode` reads UTF-8. Texts are compared as if in lower case: the patterns are ASCII and no
-- other letter that they contain has a lower case among theirs.
use Prim.Native.Char.{code}
use Prim.Native.String.{[], ◌∷◌}
use tore_legal_data_engine.Prelude.{
  ℕ, String, List, Bool, true, false, ◌&&◌, ◌||◌, if◌then◌else◌, eqb, take, is_empty,
}
use tore_legal_data_engine.Prelude.Text.{◌<>◌, trim, trim_start}
use tore_legal_data_engine.Prelude.Result.{Result, ok, err}
use tore_legal_data_engine.Regex.{fold_case}

pub data ContentKind : Type 0 where
  html pdf word unknown : ContentKind

-- `text.toLowerCase().startsWith(pattern)`
abbrev pub starts_with : String → String → Bool
starts_with [] text = true
starts_with (p ∷ ps) [] = false
starts_with (p ∷ ps) (c ∷ cs) = eqb (fold_case (code p)) (fold_case (code c)) && starts_with ps cs

-- `text.toLowerCase().includes(pattern)`
includes : String → String → Bool
includes pattern [] = starts_with pattern []
includes pattern (c ∷ cs) = starts_with pattern (c ∷ cs) || includes pattern cs

-- `text.toLowerCase() === pattern`
abbrev pub same_text : String → String → Bool
same_text [] [] = true
same_text (p ∷ ps) (c ∷ cs) = eqb (fold_case (code p)) (fold_case (code c)) && same_text ps cs
same_text _ _ = false

unfoldable pub before_semicolon : String → String
before_semicolon [] = []
before_semicolon (c ∷ cs) =
    let rest = before_semicolon cs in if eqb (code c) b';' then [] else c ∷ rest

-- The first bytes are "%PDF".
unfoldable pub looks_like_pdf : List ℕ → Bool
looks_like_pdf (List.◌∷◌ a (List.◌∷◌ b (List.◌∷◌ c (List.◌∷◌ d rest)))) =
    eqb a 0x25 && (eqb b 0x50 && (eqb c 0x44 && eqb d 0x46))
looks_like_pdf _ = false

module _ (decode : List ℕ → String) where
  unfoldable pub looks_like_html : List ℕ → Bool
  unfolding includes trim_start
  looks_like_html bytes =
      let prefix = trim_start (decode (take 512 bytes)) in
      starts_with "<!doctype html" prefix || (starts_with "<html" prefix || includes "<html" prefix)

  unfoldable pub detect_format : String → List ℕ → ContentKind
  unfolding looks_like_pdf looks_like_html before_semicolon includes trim
  detect_format mime_type bytes =
      let media = trim (before_semicolon mime_type) in
      if same_text "application/pdf" media || looks_like_pdf bytes
      then pdf
      else if includes "word" media || includes "officedocument.wordprocessingml" media
      then word
      else if same_text "text/html" media
          || (same_text "application/xhtml+xml" media || looks_like_html bytes)
      then html
      else unknown

abbrev pub is_unknown : ContentKind → Bool
is_unknown unknown = true
is_unknown _ = false

abbrev pub is_html : ContentKind → Bool
is_html html = true
is_html _ = false

-- The reason against some bytes is an error with the code under which ingestion throws it.
unfoldable pub validate_source_bytes : ContentKind → List ℕ → String → Result (Unit {0})
unfolding looks_like_pdf
validate_source_bytes format bytes mime_type =
    if is_empty bytes
    then err (record { code = "content_type"; message = "empty_body" })
    else if is_unknown format
    then err (record { code = "content_type"; message = "unexpected_type:" <> mime_type })
    else if is_html format && looks_like_pdf bytes
    then err (record { code = "content_type"; message = "expected_html_got_pdf" })
    else ok tt
