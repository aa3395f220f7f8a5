-- ===== src/Publication/Patterns.antt =====
-- The regular expressions of src/application/ingest/publication-gate.ts.
use tore_legal_data_engine.Prelude.{eqb, not, ◌||◌}
use tore_legal_data_engine.Regex.{
  Regex, at_start, at_end, word_boundary, seq, alt, star, digit, plus, opt, lit, lit_i, one_of,
}
use tore_legal_data_engine.Prelude.Text.{is_space}

abbrev pub space : Regex
space = one_of is_space

-- `.`, any character but a line terminator.
abbrev pub any_char : Regex
any_char = one_of (λ c. not (eqb c 10 || (eqb c 13 || (eqb c 0x2028 || eqb c 0x2029))))

-- `\d+(?:\^\d+)?`
abbrev numbered : Regex
numbered = seq (plus digit) (opt (seq (lit "^") (plus digit)))

abbrev chapter_locator : Regex
chapter_locator = seq (lit "ch-") numbered

abbrev sub_clause_part : Regex
sub_clause_part = opt (seq (lit "/sc-") (plus digit))

abbrev clause_part : Regex
clause_part = opt (seq (lit "/c-") (seq (plus digit) sub_clause_part))

abbrev paragraph_part : Regex
paragraph_part = opt (seq (lit "/p-") (seq (plus digit) clause_part))

abbrev article_locator : Regex
article_locator = seq (lit "art-") (
    seq (plus digit) (
      seq (opt (seq (lit ".") (plus digit)))
        (seq (opt (seq (lit "^") (plus digit))) paragraph_part)))

-- `LOCATOR_RE`
unfoldable pub locator_re : Regex
locator_re = seq at_start (
    seq
      (alt (lit "doc")
        (alt chapter_locator (alt article_locator (seq (lit "annex-") (plus digit)))))
      at_end)

-- `CHROME_ONLY_RE`
unfoldable pub chrome_only_re : Regex
chrome_only_re = seq at_start (
    seq
      (alt (lit_i "хэвлэх") (
        alt (lit_i "pdf") (
          alt (lit_i "word") (
            alt
              (seq (lit_i "сонсох") (
                opt (
                  seq (star space)
                    (seq (lit "/") (seq (star space) (seq (lit_i "сонгосон") (star any_char)))))))
              (alt (lit_i "хуваалцах") (lit "-->"))))))
      at_end)

-- `/^\d+\.\d+/`
unfoldable pub compound_article_re : Regex
compound_article_re = seq at_start (seq (plus digit) (seq (lit ".") (plus digit)))

-- `/\/p-\d+\/c-\d+$/`
unfoldable pub clause_locator_re : Regex
clause_locator_re = seq (lit "/p-") (seq (plus digit) (seq (lit "/c-") (seq (plus digit) at_end)))

-- `/^хэвлэх\b/i`
unfoldable pub print_button_re : Regex
print_button_re = seq at_start (seq (lit_i "хэвлэх") word_boundary)
