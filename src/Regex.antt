-- ===== src/Regex.antt =====
-- Regular expressions as ECMAScript runs them: backtracking, the leftmost match, the first
-- alternative and the longest repetition preferred. They are the language's, not the program's; the
-- patterns of the source are written with them.
pub mod Sound
use Prim.Native.Char.{code}
use Prim.Native.String.{[], ◌∷◌}
use tore_legal_data_engine.Prelude.{
  ℕ, zero, suc, ◌+◌, ◌-◌, String, Option, none, some, List, Bool, true, false, not, ◌&&◌, ◌||◌, leb,
  eqb, if◌then◌else◌, find_first,
}
use mathlib.Core.List

pub data Regex : Type 0 where
  -- a character of a class
  one_of : (ℕ → Bool) → Regex
  nothing at_start at_end word_boundary : Regex
  seq alt : Regex → Regex → Regex
  -- repetition, greedy or (`*?`) lazy
  star lazy_star : Regex → Regex
  -- a numbered group
  group : ℕ → Regex → Regex

-- Where the matcher stands: the character before, how many are consumed, and what is left.
pub record Cursor : Type 0 where
  pub before : Option ℕ
  pub position : ℕ
  pub left : String

abbrev pub Captures : Type 0
Captures = List (ℕ × String)

-- `\w` with no `u` flag: ASCII letters, digits and the underscore.
abbrev pub is_word : ℕ → Bool
is_word c =
    (leb b'a' c && leb c b'z')
    || ((leb b'A' c && leb c b'Z') || ((leb b'0' c && leb c b'9') || eqb c b'_'))

abbrev pub is_word_opt : Option ℕ → Bool
is_word_opt none = false
is_word_opt (some c) = is_word c

abbrev pub next_code : String → Option ℕ
next_code [] = none
next_code (c ∷ s) = some (code c)

abbrev pub is_end : String → Bool
is_end [] = true
is_end (c ∷ s) = false

take_chars : ℕ → String → String
take_chars zero s = []
take_chars (suc n) [] = []
take_chars (suc n) (c ∷ s) = c ∷ take_chars n s

abbrev pub Next : Type 0
Next = Cursor → Captures → Option Captures

unfoldable pub char_step : (ℕ → Bool) → ℕ → String → Captures → Next → Option Captures
char_step p position [] caps k = none
char_step p position (c ∷ s) caps k =
    if p (code c)
    then k (record { before = some (code c); position = position + 1; left = s }) caps
    else none

-- One character of a class, then the rest.
unfoldable pub match_char : (ℕ → Bool) → Cursor → Captures → Next → Option Captures
unfolding char_step
match_char p cur caps k = char_step p cur.position cur.left caps k

unfoldable pub first_of_two : Option Captures → Option Captures → Option Captures
first_of_two none b = b
first_of_two (some a) b = some a

-- A repetition tries one more round, which must consume something, before it goes on (greedy), or
-- goes on first (lazy). The fuel is the number of characters left, so it never runs out first.
unfoldable pub repeat_greedy :
    (Cursor → Captures → Next → Option Captures) → ℕ → Cursor → Captures → Next → Option Captures
unfolding first_of_two
repeat_greedy round zero cur caps k = k cur caps
repeat_greedy round (suc f) cur caps k =
    let again = λ (c : Cursor) (p : Captures).
      (let more = repeat_greedy round f c p k in
        if leb c.position cur.position then none else more) in
    first_of_two (round cur caps again) (k cur caps)

unfoldable pub repeat_lazy :
    (Cursor → Captures → Next → Option Captures) → ℕ → Cursor → Captures → Next → Option Captures
unfolding first_of_two
repeat_lazy round zero cur caps k = k cur caps
repeat_lazy round (suc f) cur caps k =
    let again = λ (c : Cursor) (p : Captures).
      (let more = repeat_lazy round f c p k in
        if leb c.position cur.position then none else more) in
    first_of_two (k cur caps) (round cur caps again)

abbrev pub chars : String → ℕ
chars [] = 0
chars (c ∷ s) = suc (chars s)

unfoldable pub match : Regex → Cursor → Captures → Next → Option Captures
unfolding match_char first_of_two repeat_greedy repeat_lazy take_chars
match (one_of p) cur caps k = match_char p cur caps k
match nothing cur caps k = k cur caps
match at_start cur caps k = if eqb cur.position 0 then k cur caps else none
match at_end cur caps k = if is_end cur.left then k cur caps else none
match word_boundary cur caps k =
    let inside = is_word_opt cur.before in
    let ahead = is_word_opt (next_code cur.left) in
    if (inside && not ahead) || (not inside && ahead) then k cur caps else none
match (seq r s) cur caps k = match r cur caps (λ c p. match s c p k)
match (alt r s) cur caps k = first_of_two (match r cur caps k) (match s cur caps k)
match (star r) cur caps k = repeat_greedy (match r) (suc (chars cur.left)) cur caps k
match (lazy_star r) cur caps k = repeat_lazy (match r) (suc (chars cur.left)) cur caps k
match (group n r) cur caps k =
    match r cur caps (λ c p. k c (List.◌∷◌ (n, take_chars (c.position - cur.position) cur.left) p))

unfoldable pub match_at : Regex → Cursor → Option Captures
unfolding match
match_at r cur = match r cur List.[] (λ c p. some p)

-- `text.match(re)`: the first position at which the pattern matches.
unfoldable pub search_from : Regex → Option ℕ → ℕ → String → Option Captures
search_from r before position [] =
    match_at r (record { before = before; position = position; left = [] })
search_from r before position (c ∷ s) =
    let here = match_at r (record { before = before; position = position; left = c ∷ s }) in
    first_of_two here (search_from r (some (code c)) (position + 1) s)

unfoldable pub search_text : Regex → String → Option Captures
unfolding search_from match_at
search_text r text = search_from r none 0 text

-- `re.test(text)`
unfoldable pub test : Regex → String → Bool
unfolding search_text
test r text = elim (search_text r text) [ none ↦ false | some p ↦ true ]

-- The text of a numbered group.
unfoldable pub captured : ℕ → Captures → Option String
captured n List.[] = none
captured n (List.◌∷◌ (m, t) p) = if eqb m n then some t else captured n p

-- Ways to write a pattern.
abbrev pub char : ℕ → Regex
char c = one_of (λ x. eqb x c)

abbrev pub digit : Regex
digit = one_of (λ x. leb b'0' x && leb x b'9')

abbrev pub plus : Regex → Regex
plus r = seq r (star r)

abbrev pub opt : Regex → Regex
opt r = alt r nothing

abbrev pub lit : String → Regex
lit [] = nothing
lit (c ∷ s) = seq (char (code c)) (lit s)

-- The lower case of the Latin and Mongolian Cyrillic letters.
abbrev pub fold_case : ℕ → ℕ
fold_case c =
    if (leb 0x41 c && leb c 0x5a) || (leb 0x410 c && leb c 0x42f)
    then c + 32
    else if leb 0x400 c && leb c 0x40f
    then c + 80
    else if eqb c 0x4ae || eqb c 0x4e8
    then c + 1
    else c

-- A literal under the flag `i`.
abbrev pub lit_i : String → Regex
lit_i [] = nothing
lit_i (c ∷ s) = seq (one_of (λ x. eqb (fold_case x) (fold_case (code c)))) (lit_i s)
