-- ===== src/Normalizer/Locator/Parts.antt =====
-- The locator that a number with points names.
use Prim.Native.Char.{code}
use Prim.Native.String.{[], ◌∷◌}
use Prim.Native.String.append
use text.Mathlib.TextLemmas.{append_assoc, append-nil}
use tore_legal_data_engine.Prelude.{
  ℕ, suc, String, Option, none, some, List, Bool, true, false, ◌≡◌, refl, arith, All, Bool-cases,
  inl, inr, sym, ap, ◌∙◌, ◌==◌, eq_iff, ◌&&◌, get_elem?, drop, some_of,
}
use tore_legal_data_engine.Prelude.Keys.{has}
use tore_legal_data_engine.Prelude.Maps.{StringMap, get}
use tore_legal_data_engine.Prelude.Text.{◌<>◌, join}
use tore_legal_data_engine.Normalizer.Text.{
  is_digit, split_parts, parse_number_parts, lemma_token, lemmas, is_separator, some_if,
}
use tore_legal_data_engine.Normalizer.Locator.{
  Locator, parse_locator, parse_from, token_step, number_step, next_role, role_of, is_ignorable,
  assign_from_level, assign_parts, empty_locator, article_words, paragraph_words,
  subparagraph_words, item_words, skip_words, word_step, Step,
}

abbrev is_digits : String → Bool
is_digits [] = true
is_digits (c ∷ s) = is_digit (code c) && is_digits s

abbrev begins_with_digit : String → Bool
begins_with_digit [] = false
begins_with_digit (c ∷ s) = is_digit (code c)

-- A number: digits, and one at least.
abbrev pub IsNumber : String → Type 0
IsNumber s = (begins_with_digit s ≡ true) × (is_digits s ≡ true)

abbrev join_some : List String → Option String
join_some List.[] = none
join_some (List.◌∷◌ x xs) = some (join "." (List.◌∷◌ x xs))

-- The first three numbers are the article, the paragraph and the subparagraph; the others, with
-- points between them, are the item.
abbrev pub locator_of : List String → Locator
locator_of parts = record {
  article = get_elem? parts 0;
  paragraph = get_elem? parts 1;
  subparagraph = get_elem? parts 2;
  item = join_some (drop 3 parts);
}

split_parts-digits :
    (part digits s : String)
    → is_digits digits ≡ true
    → split_parts part (digits <> s) ≡ split_parts (part <> digits) s
unfolding split_parts
split_parts-digits part [] s h =
    ap (split_parts part) (append.nil s) ∙ ap (λ p. split_parts p s) (sym (append-nil part))
split_parts-digits part (c ∷ d) s h =
    let digit : is_digit (code c) ≡ true = ground arith in
    let not_separator : is_separator (code c) ≡ false = ground arith in
    let regroup : (part <> c ∷ "") <> d ≡ part <> c ∷ d =
      append_assoc part (c ∷ "") d
      ∙ ap (λ t. part <> t) (append.cons c "" d ∙ ap (λ t. c ∷ t) (append.nil d)) in
    ap (split_parts part) (append.cons c d s)
    ∙ rw not_separator (split_parts-digits (part <> c ∷ "") d s (ground arith))
    ∙ ap (λ p. split_parts p s) regroup

-- A text that begins with a digit is no text that does not.
digit_ne :
    (s w : String) → begins_with_digit s ≡ true → begins_with_digit w ≡ false → (w == s) ≡ false
digit_ne s w d n = elim (Bool-cases (w == s)) [
  | inl e ↦ absurd (cc (sym n ∙ ap begins_with_digit ((eq_iff w s).0 e) ∙ d))
  | inr e ↦ e
]

ne_digit :
    (s w : String) → begins_with_digit s ≡ true → begins_with_digit w ≡ false → (s == w) ≡ false
ne_digit s w d n = elim (Bool-cases (s == w)) [
  | inl e ↦ absurd (cc (sym n ∙ sym (ap begins_with_digit ((eq_iff s w).0 e)) ∙ d))
  | inr e ↦ e
]

point-append : (s : String) → "." <> s ≡ "." ∷ s
point-append s = append.cons "." "" s ∙ ap (λ t. "." ∷ t) (append.nil s)

split_parts-join :
    (p : String) (ps : List String)
    → IsNumber p
    → All IsNumber ps
    → split_parts "" (join "." (List.◌∷◌ p ps)) ≡ List.◌∷◌ p ps
unfolding split_parts join
split_parts-join p List.[] n h =
    ap (split_parts "") (sym (append-nil p))
    ∙ split_parts-digits "" p "" n.1
    ∙ ap (λ t. split_parts t "") (append.nil p)
    ∙ rw (ne_digit p "" n.0 refl) refl
split_parts-join p (List.◌∷◌ q ps) n (m, h) =
    split_parts-digits "" p ("." <> join "." (List.◌∷◌ q ps)) n.1
    ∙ ap (λ t. split_parts t ("." <> join "." (List.◌∷◌ q ps))) (append.nil p)
    ∙ ap (split_parts p) (point-append (join "." (List.◌∷◌ q ps)))
    ∙ rw (ne_digit p "" n.0 refl) (ap (λ ts. List.◌∷◌ p ts) (split_parts-join q ps m h))

-- A text that begins with a digit is none of these words.
has-digit :
    (s : String) (words : List String)
    → begins_with_digit s ≡ true
    → some_of begins_with_digit words ≡ false
    → has s words ≡ false
has-digit s List.[] d h = refl
has-digit s (List.◌∷◌ w words) d h =
    rw (digit_ne s w d (ground arith), has-digit s words d (ground arith)) refl

begins_with_digit-join :
    (p : String) (ps : List String)
    → IsNumber p
    → begins_with_digit (join "." (List.◌∷◌ p ps)) ≡ true
unfolding join
begins_with_digit-join p List.[] n = n.0
begins_with_digit-join [] (List.◌∷◌ q ps) n = absurd (cc)
begins_with_digit-join (c ∷ s) (List.◌∷◌ q ps) n =
    ap begins_with_digit (append.cons c s ("." <> join "." (List.◌∷◌ q ps))) ∙ n.0

get-digit :
    (s : String) (m : StringMap String)
    → begins_with_digit s ≡ true
    → some_of (λ e. begins_with_digit e.0) m ≡ false
    → get s m ≡ none
unfolding get
get-digit s List.[] d h = refl
get-digit s (List.◌∷◌ (w, v) m) d h =
    rw (digit_ne s w d (ground arith), get-digit s m d (ground arith)) refl

parse_number_parts_lem :
    (s : String) → begins_with_digit s ≡ true → parse_number_parts s ≡ some_if (split_parts "" s)
unfolding parse_number_parts
parse_number_parts_lem [] d = absurd (cc)
parse_number_parts_lem (c ∷ s) d = rw d refl

-- A number has no role and is not passed over, and its lemma is itself.
lemma_token-digit : (s : String) → begins_with_digit s ≡ true → lemma_token s ≡ s
unfolding lemma_token
lemma_token-digit s d = rw (get-digit s lemmas d refl) refl

role_of-digit : (s : String) → begins_with_digit s ≡ true → role_of s ≡ none
unfolding role_of
role_of-digit s d =
    rw
      (
        lemma_token-digit s d,
        has-digit s article_words d refl,
        has-digit s paragraph_words d refl,
        has-digit s subparagraph_words d refl,
        has-digit s item_words d refl,
      )
      refl

is_ignorable-digit : (s : String) → begins_with_digit s ≡ true → is_ignorable s ≡ false
unfolding is_ignorable
is_ignorable-digit s d =
    rw
      (
        lemma_token-digit s d,
        has-digit s skip_words d refl,
        ne_digit s "" d refl,
        ne_digit s "(" d refl,
        ne_digit s ")" d refl,
      )
      refl

parse_number_parts-join :
    (p : String) (ps : List String)
    → IsNumber p
    → All IsNumber ps
    → parse_number_parts (join "." (List.◌∷◌ p ps)) ≡ some (List.◌∷◌ p ps)
parse_number_parts-join p ps n h =
    parse_number_parts_lem (join "." (List.◌∷◌ p ps)) (begins_with_digit-join p ps n)
    ∙ ap some_if (split_parts-join p ps n h)

-- The parts past the item are put behind it.
join-fuse :
    (x y : String) (rest : List String)
    → join "." (List.◌∷◌ (x <> "." <> y) rest) ≡ join "." (List.◌∷◌ x (List.◌∷◌ y rest))
unfolding join
join-fuse x y List.[] = refl
join-fuse x y (List.◌∷◌ z rest) =
    append_assoc x ("." <> y) ("." <> join "." (List.◌∷◌ z rest))
    ∙ ap (λ t. x <> t) (append_assoc "." y ("." <> join "." (List.◌∷◌ z rest)))

begins_with_digit-append :
    (s t : String) → begins_with_digit s ≡ true → begins_with_digit (s <> t) ≡ true
begins_with_digit-append [] t h = absurd (cc)
begins_with_digit-append (c ∷ s) t h = ap begins_with_digit (append.cons c s t) ∙ h

assign_parts-item :
    (a b c : Option String) (x : String) (n : ℕ) (rest : List String)
    → begins_with_digit x ≡ true
    → assign_parts
        (record { article = a; paragraph = b; subparagraph = c; item = some x })
        (suc (suc (suc (suc n))))
        rest
      ≡ record {
        article = a;
        paragraph = b;
        subparagraph = c;
        item = some (join "." (List.◌∷◌ x rest));
      }
unfolding assign_parts join
assign_parts-item a b c x n List.[] h = refl
assign_parts-item a b c x n (List.◌∷◌ y rest) h = rw (ne_digit x "" h refl) (
    assign_parts-item a b c (x <> "." <> y) (suc n) rest (begins_with_digit-append x ("." <> y) h)
    ∙ ap (λ t. record { article = a; paragraph = b; subparagraph = c; item = some t })
        (join-fuse x y rest))

assign_parts-locator_of :
    (parts : List String)
    → All IsNumber parts
    → assign_parts empty_locator 0 parts ≡ locator_of parts
unfolding assign_parts
assign_parts-locator_of List.[] h = refl
assign_parts-locator_of (List.◌∷◌ a List.[]) h = refl
assign_parts-locator_of (List.◌∷◌ a (List.◌∷◌ b List.[])) h = refl
assign_parts-locator_of (List.◌∷◌ a (List.◌∷◌ b (List.◌∷◌ c List.[]))) h = refl
assign_parts-locator_of (List.◌∷◌ a (List.◌∷◌ b (List.◌∷◌ c (List.◌∷◌ d rest)))) h =
    assign_parts-item (some a) (some b) (some c) d 0 rest h.1.1.1.0.0

token_step-digit :
    (l : Locator) (s : String) (rest : List String)
    → begins_with_digit s ≡ true
    → token_step l s rest ≡ word_step l rest (parse_number_parts s)
unfolding token_step
token_step-digit l s rest d = rw (is_ignorable-digit s d, role_of-digit s d) refl

-- A single number, from the parts that are read in it.
parse_locator_one :
    (s : String) (parts : List String)
    → begins_with_digit s ≡ true
    → parse_number_parts s ≡ some parts
    → parse_locator (List.◌∷◌ s List.[]) ≡ assign_parts empty_locator 0 parts
unfolding parse_locator parse_from number_step assign_from_level next_role
parse_locator_one s parts d h =
    ap (λ (t : Step). t.0)
      (token_step-digit empty_locator s List.[] d ∙ ap (word_step empty_locator List.[]) h)

-- A citation that is one number with points names its parts: of one or more numbers, written with
-- points between them, the first is the article, the second the paragraph, the third the
-- subparagraph, and all others, with the points between them, are the item.
pub parse_locator-join :
    (p : String) (ps : List String)
    → IsNumber p
    → All IsNumber ps
    → parse_locator (List.◌∷◌ (join "." (List.◌∷◌ p ps)) List.[]) ≡ locator_of (List.◌∷◌ p ps)
parse_locator-join p ps n h =
    parse_locator_one (join "." (List.◌∷◌ p ps)) (List.◌∷◌ p ps) (begins_with_digit-join p ps n)
      (parse_number_parts-join p ps n h)
    ∙ assign_parts-locator_of (List.◌∷◌ p ps) (n, h)
