-- ===== src/Citations/Query/Title.antt =====
-- `extractTitleHint` on the phrases that the parser documents.
use Prim.Native.Char.{Char, code}
use Prim.Native.String.{[], ◌∷◌}
use tore_legal_data_engine.Prelude.{
  ℕ, ◌+◌, String, Option, none, some, Bool, false, ◌&&◌, ◌||◌, ◌≡◌, refl, arith, eqb,
}
use tore_legal_data_engine.Prelude.Text.{trim, collapse_spaces}
use tore_legal_data_engine.Regex.{
  Cursor, Captures, Next, seq, word_boundary, match, match_at, match_char, char_step, lit_i,
  fold_case, is_word_opt, next_code, search_from, search_text, first_of_two,
}
use tore_legal_data_engine.Regex.Sound.{match-IsSound}
use tore_legal_data_engine.Citations.Query.{
  title_prefix_re, title_re, extract_title_hint, parse_exact_citation_query,
}

-- Whether some Cyrillic "н" is followed at once by an ASCII letter, a digit or an underscore.
abbrev pub glued : String → Bool
glued [] = false
glued (c ∷ s) = (eqb (fold_case (code c)) 0x43d && is_word_opt (next_code s)) || glued s

abbrev Loose : String → Type 0
Loose s = glued s ≡ false

Loose-tail : (c : Char) (s : String) → Loose (c ∷ s) → Loose s
Loose-tail c s h = ground arith

-- After "н" the boundary `\b` asks for an ASCII letter, a digit or an underscore.
ending_at-none :
    (n : ℕ) (s : String) (caps : Captures) (k : Next)
    → Loose s
    → char_step (λ x. eqb (fold_case x) 0x43d) n s caps (λ c p. match word_boundary c p k) ≡ none
unfolding match char_step
ending_at-none n [] caps k h = refl
ending_at-none n (c ∷ s) caps k h = ground arith

ending-none :
    (cur : Cursor) (caps : Captures) (k : Next)
    → Loose cur.left
    → match (seq (lit_i "н") word_boundary) cur caps k ≡ none
unfolding match match_char
ending-none cur caps k h = ending_at-none cur.position cur.left caps k h

no_match : (m : Option Captures) → ((x : Captures) → m ≡ some x → ⊥) → m ≡ none
no_match none f = refl
no_match (some x) f = absurd (f x refl)

title_re-none : (cur : Cursor) → Loose cur.left → match_at title_re cur ≡ none
unfolding match_at title_re match
title_re-none cur h = no_match _ (λ x e.
    let r = match-IsSound Loose Loose-tail title_prefix_re cur _ _ x h e in
    ground (arith, r.reached, ending-none r.cursor r.captures (λ c p. some p) r.holds))

search_title-none :
    (b : Option ℕ) (n : ℕ) (s : String) → Loose s → search_from title_re b n s ≡ none
unfolding search_from first_of_two
search_title-none b n [] h = title_re-none _ h
search_title-none b n (c ∷ s) h =
    rw (title_re-none (record { before = b; position = n; left = c ∷ s }) h)
      (search_title-none (some (code c)) (n + 1) s (Loose-tail c s h))

extract_title_hint-none : (q : String) → Loose q → extract_title_hint q ≡ none
unfolding extract_title_hint search_text
extract_title_hint-none q h = rw (search_title-none none 0 q h, extract_title_hint) refl

-- The parser finds a law's title in no query but one in which, white space collapsed, some "н"
-- is followed at once by an ASCII letter, a digit or an underscore.
pub title_hint-none :
    (query : String)
    → glued (trim (collapse_spaces query)) ≡ false
    → (parse_exact_citation_query query).title_hint ≡ none
unfolding parse_exact_citation_query
title_hint-none query h = extract_title_hint-none (trim (collapse_spaces query)) h
