-- ===== src/Normalizer/Locator.antt =====
-- packages/citation-normalizer/src/locator.ts: the locator that the tokens of a citation name. The index
-- of the loop is a number of tokens to skip and the tokens from there on.
pub mod Parts
use tore_legal_data_engine.Prelude.{
  ℕ, zero, suc, ◌+◌, String, Option, none, some, List, [], ◌∷◌, Bool, true, false, ◌||◌,
  if◌then◌else◌, ◌==◌, truthy, or_else,
}
use tore_legal_data_engine.Prelude.Keys.{has}
use tore_legal_data_engine.Prelude.Text.{◌<>◌}
use tore_legal_data_engine.Normalizer.Text.{lemma_token, parse_number_parts}

pub record Locator : Type 0 where
  pub article : Option String
  pub paragraph : Option String
  pub subparagraph : Option String
  pub item : Option String

pub data LocatorLevel : Type 0 where
  article paragraph subparagraph item : LocatorLevel

abbrev pub article_words : List String
article_words = "зүйл" ∷ "article" ∷ "articles" ∷ "art" ∷ []

abbrev pub paragraph_words : List String
paragraph_words = "хэсэг" ∷ "paragraph" ∷ "paragraphs" ∷ "para" ∷ "section" ∷ "sections" ∷ []

abbrev pub subparagraph_words : List String
subparagraph_words = "заалт" ∷ "subparagraph" ∷ "subpara" ∷ "clause" ∷ "clauses" ∷ []

abbrev pub item_words : List String
item_words = "цэг" ∷ "item" ∷ "items" ∷ "point" ∷ "points" ∷ []

abbrev pub skip_words : List String
skip_words =
    "дүгээр" ∷ "дугаар" ∷ "дэх" ∷ "дахь" ∷ "the" ∷ "of" ∷ "no" ∷ "number" ∷ "тухай" ∷ "and" ∷ []

abbrev pub empty_locator : Locator
empty_locator = record { article = none; paragraph = none; subparagraph = none; item = none }

-- `LOCATOR_LEVELS[offset]`
abbrev pub level_at : ℕ → Option LocatorLevel
level_at zero = some article
level_at (suc zero) = some paragraph
level_at (suc (suc zero)) = some subparagraph
level_at (suc (suc (suc zero))) = some item
level_at (suc (suc (suc (suc n)))) = none

-- `LOCATOR_LEVELS.indexOf(level)`
abbrev pub index_of : LocatorLevel → ℕ
index_of article = 0
index_of paragraph = 1
index_of subparagraph = 2
index_of item = 3

-- `if (locator[level] === null) locator[level] = part`
abbrev pub fill : Option String → String → Option String
fill none part = some part
fill (some old) part = some old

abbrev pub assign_level : Locator → String → Option LocatorLevel → Locator
assign_level l part none = record l {
  item = if truthy l.item then some (or_else l.item "" <> "." <> part) else some part;
}
assign_level l part (some article) = record l { article = fill l.article part }
assign_level l part (some paragraph) = record l { paragraph = fill l.paragraph part }
assign_level l part (some subparagraph) = record l { subparagraph = fill l.subparagraph part }
assign_level l part (some item) = record l { item = fill l.item part }

-- The loop of `assignFromLevel`. Past the last level `offset` stays, which no later step can tell.
unfoldable pub assign_parts : Locator → ℕ → List String → Locator
assign_parts l offset [] = l
assign_parts l offset (part ∷ rest) =
    assign_parts (assign_level l part (level_at offset)) (suc offset) rest

unfoldable pub assign_from_level : Locator → LocatorLevel → List String → Locator
unfolding assign_parts
assign_from_level l start parts = assign_parts l (index_of start) parts

abbrev is_null : Option String → Bool
is_null none = true
is_null (some s) = false

unfoldable pub first_empty : Locator → LocatorLevel
first_empty l =
    if is_null l.article
    then article
    else if is_null l.paragraph
    then paragraph
    else if is_null l.subparagraph
    then subparagraph
    else item

unfoldable pub assign_next_empty : Locator → List String → Locator
unfolding first_empty assign_from_level
assign_next_empty l parts = assign_from_level l (first_empty l) parts

abbrev among : List String → String → Bool
among words token = has (lemma_token token) words || has token words

unfoldable pub role_of : String → Option LocatorLevel
role_of token =
    if among article_words token
    then some article
    else if among paragraph_words token
    then some paragraph
    else if among subparagraph_words token
    then some subparagraph
    else if among item_words token
    then some item
    else none

-- `!token || isIgnorable(token)`
unfoldable pub is_ignorable : String → Bool
is_ignorable token =
    token == ""
    || (token == "("
        || (token == ")" || (has token skip_words || has (lemma_token token) skip_words)))

-- `nextNumber`: the parts, and how many tokens stand before.
unfoldable pub next_number : ℕ → List String → Option (List String × ℕ)
next_number before [] = none
next_number before (token ∷ rest) =
    let more = next_number (suc before) rest in
    if is_ignorable token then more else elim (role_of token) [
      | some role ↦ none
      | none ↦ elim (parse_number_parts token) [ some parts ↦ some (parts, before) | none ↦ none ]
    ]

-- `nextRole`: the role, and how many tokens stand before.
unfoldable pub next_role : ℕ → List String → Option (LocatorLevel × ℕ)
next_role before [] = none
next_role before (token ∷ rest) =
    let more = next_role (suc before) rest in
    if is_ignorable token
    then more
    else elim (role_of token) [ some role ↦ some (role, before) | none ↦ none ]

abbrev pub Step : Type 0
Step = Locator × ℕ

-- A number: its role follows, or it is the article or the next level that is empty.
unfoldable pub number_step : Locator → List String → Option (LocatorLevel × ℕ) → Step
unfolding assign_from_level assign_next_empty
number_step l parts (some (role, before)) = (assign_from_level l role parts, suc before)
number_step l parts none =
    (if truthy l.article then assign_next_empty l parts else assign_from_level l article parts, 0)

unfoldable pub role_step : Locator → LocatorLevel → Option (List String × ℕ) → Step
unfolding assign_from_level
role_step l role (some (parts, before)) = (assign_from_level l role parts, suc before)
role_step l role none = (l, 0)

abbrev pub word_step : Locator → List String → Option (List String) → Step
word_step l rest none = (l, 0)
word_step l rest (some parts) = number_step l parts (next_role 0 rest)

-- One round of the loop of `parseLocator`: the locator, and how many more tokens were used.
unfoldable pub token_step : Locator → String → List String → Step
unfolding number_step role_step next_number next_role role_of is_ignorable
token_step l token rest = if is_ignorable token then (l, 0) else elim (role_of token) [
  | some role ↦ role_step l role (next_number 0 rest)
  | none ↦ word_step l rest (parse_number_parts token)
]

unfoldable pub parse_from : Locator → ℕ → List String → Locator
unfolding token_step
parse_from l skip [] = l
parse_from l (suc skip) (token ∷ rest) = parse_from l skip rest
parse_from l zero (token ∷ rest) =
    let (next, used) = token_step l token rest in parse_from next used rest

unfoldable pub parse_locator : List String → Locator
unfolding parse_from
parse_locator tokens = parse_from empty_locator 0 tokens
