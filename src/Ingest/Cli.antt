-- ===== src/Ingest/Cli.antt =====
-- src/application/ingest/cli-args.ts: the arguments of the ingest command. An object of flags is a map.
pub mod Flags
pub mod Limits
use Prim.Native.Char.{Char, code}
use Prim.Native.String
use tore_legal_data_engine.Prelude.{
  ℕ, zero, suc, String, Option, none, some, List, [], ◌∷◌, ◌++◌, map, Bool, true, false, not, ◌&&◌,
  ◌||◌, if◌then◌else◌, eqb, ltb, length, keep, head?, or_else, or_opt, is_empty, same_opt, truthy,
  max, min, ◌==◌,
}
use tore_legal_data_engine.Prelude.Keys.{unique}
use tore_legal_data_engine.Prelude.Maps.{StringMap, get, set}
use tore_legal_data_engine.Prelude.Text.{◌<>◌, trim, parse_natural, parse_int}
use tore_legal_data_engine.Prelude.Int.{ℤ}
use tore_legal_data_engine.Ingest.Republish.{ExpectedShape}

-- `IngestCliOptions`
pub record IngestCliOptions : Type 0 where
  pub limit : ℕ
  pub dry_run : Bool
  pub url : Option String
  pub law_id : Option String
  pub law_ids : Option (List String)
  pub allow_full_crawl : Bool
  pub from_archive : Option String
  pub retrieved_at : Option String
  pub expected_shape : Option ExpectedShape

-- The character is the one of a text with one character.
abbrev pub is_char : String → Char → Bool
is_char x c = Prim.Native.String.◌∷◌ c Prim.Native.String.[] == x

-- What follows `--`, where the text begins with it.
unfoldable pub after_dashes : String → Option String
after_dashes Prim.Native.String.[] = none
after_dashes (Prim.Native.String.◌∷◌ a Prim.Native.String.[]) = none
after_dashes (Prim.Native.String.◌∷◌ a (Prim.Native.String.◌∷◌ b s)) =
    if is_char "-" a && is_char "-" b then some s else none

abbrev pub beside : String → Option (String × String) → Option (String × String)
beside c none = none
beside c (some (key, value)) = some (c <> key, value)

-- The texts before and after the first `=`.
unfoldable pub split_eq : String → Option (String × String)
split_eq Prim.Native.String.[] = none
split_eq (Prim.Native.String.◌∷◌ c s) =
    let later = beside (Prim.Native.String.◌∷◌ c Prim.Native.String.[]) (split_eq s) in
    if is_char "=" c then some ("", s) else later

abbrev pub is_some : Option String → Bool
is_some none = false
is_some (some s) = true

-- `!next || next.startsWith("--")`
abbrev pub no_value : Option String → Bool
no_value none = true
no_value (some next) = next == "" || is_some (after_dashes next)

-- A flag without `=`.
abbrev pub plain_flag : StringMap String → String → Option String → StringMap String × Bool
plain_flag flags key next =
    if no_value next then (set key "true" flags, false) else (set key (or_else next "") flags, true)

-- One token of `parseFlags` that is a flag, and the one after it: the flags, and whether that is used.
unfoldable pub flag_step : StringMap String → String → Option String → StringMap String × Bool
flag_step flags key next = elim (split_eq key) [
  | some (name, value) ↦ (set name value flags, false)
  | none ↦ plain_flag flags key next
]

-- The loop of `parseFlags`; the test tells that a token was used as a value.
unfoldable pub flags_from : Bool → StringMap String → List String → StringMap String
unfolding flag_step after_dashes split_eq
flags_from used flags [] = flags
flags_from true flags (token ∷ rest) = flags_from false flags rest
flags_from false flags (token ∷ rest) = elim (after_dashes token) [
  | none ↦ flags_from false flags rest
  | some key ↦ let (next, used) = flag_step flags key (head? rest) in flags_from used next rest
]

unfoldable pub parse_flags : List String → StringMap String
unfolding flags_from
parse_flags argv = flags_from false [] argv

-- `text.split(",")`
unfoldable pub split_commas : String → String → List String
split_commas part Prim.Native.String.[] = part ∷ []
split_commas part (Prim.Native.String.◌∷◌ c s) =
    let rest = split_commas "" s in
    let more = split_commas (part <> Prim.Native.String.◌∷◌ c Prim.Native.String.[]) s in
    if eqb (code c) b',' then part ∷ rest else more

-- What a token of `parseLawIds` collects, with the token after it.
unfoldable pub law_ids_of : String → Option String → List String
law_ids_of token next =
    if token == "--law-id"
    then if no_value next then [] else or_else next "" ∷ []
    else elim (after_dashes token) [
      | none ↦ []
      | some key ↦ elim (split_eq key) [
        | none ↦ []
        | some (name, value) ↦ if name == "law-id" then value ∷ [] else []
      ]
    ]

-- The loop of `parseLawIds`.
unfoldable pub collect_law_ids : List String → List String
unfolding law_ids_of after_dashes split_eq
collect_law_ids [] = []
collect_law_ids (token ∷ rest) = law_ids_of token (head? rest) ++ collect_law_ids rest

abbrev split_all : List String → List String
split_all [] = []
split_all (x ∷ xs) = split_commas "" x ++ split_all xs

abbrev some_if : List String → Option (List String)
some_if ids = if is_empty ids then none else some ids

-- `single` counts if no token gave an id.
abbrev or_single : List String → Option String → List String
or_single [] (some single) = if single == "" then [] else single ∷ []
or_single [] none = []
or_single (x ∷ xs) single = x ∷ xs

unfoldable pub parse_law_ids : List String → Option String → Option (List String)
unfolding collect_law_ids split_commas unique trim
parse_law_ids argv single = some_if (
    unique
      (keep (λ v. not (v == "")) (map trim (split_all (or_single (collect_law_ids argv) single)))))

-- The number that is parsed from a flag, if it is positive or zero.
abbrev number_at : String → StringMap String → Option ℕ
number_at key flags = parse_natural (or_else (get key flags) "")

-- `Number.parseInt(flags[key] ?? "", 10)`
abbrev integer_at : String → StringMap String → Option ℤ
integer_at key flags = parse_int (or_else (get key flags) "")

abbrev shape_of : Option ℤ → Option ℤ → Option ℤ → Option ℤ → Option ExpectedShape
shape_of (some a) (some p) (some c) (some n) =
    some (record { articles = a; paragraphs = p; clauses = c; nodes = n })
shape_of _ _ _ _ = none

unfoldable pub parse_expected_shape : StringMap String → Option ExpectedShape
parse_expected_shape flags =
    shape_of (integer_at "expect-articles" flags) (integer_at "expect-paragraphs" flags)
      (integer_at "expect-clauses" flags) (integer_at "expect-nodes" flags)

-- `Number.isFinite(requested) && requested > 0 ? requested : 1`
abbrev positive_or_one : Option ℕ → ℕ
positive_or_one none = 1
positive_or_one (some zero) = 1
positive_or_one (some (suc n)) = suc n

unfoldable pub parsed_limit : StringMap String → ℕ
parsed_limit flags =
    if truthy (get "limit" flags) then positive_or_one (number_at "limit" flags) else 1

abbrev needed : Option (List String) → StringMap String → ℕ
needed (some ids) flags = length ids
needed none flags =
    if truthy (get "url" flags) || truthy (get "law-id" flags) then 1 else parsed_limit flags

abbrev first_id : Option (List String) → Option String
first_id none = none
first_id (some ids) = head? ids

unfoldable pub wants_dry_run : StringMap String → Bool
wants_dry_run flags =
    if same_opt (get "publish" flags) (some "true")
    then false
    else not (same_opt (get "dry-run" flags) (some "false"))

abbrev options_of : StringMap String → Option (List String) → ℕ → IngestCliOptions
options_of flags ids max_documents =
    let allow = same_opt (get "allow-full-crawl" flags) (some "true") in
    let uncapped = max (parsed_limit flags) (needed ids flags) in
    record {
      limit = max 1 (if allow then uncapped else min uncapped max_documents);
      dry_run = wants_dry_run flags;
      url = get "url" flags;
      law_id = or_opt (first_id ids) (get "law-id" flags);
      law_ids = ids;
      allow_full_crawl = allow;
      from_archive = get "from-archive" flags;
      retrieved_at = get "retrieved-at" flags;
      expected_shape = parse_expected_shape flags;
    }

-- `parseIngestCliArgs`
unfoldable pub parse_ingest_cli_args : List String → ℕ → IngestCliOptions
unfolding parse_flags parse_law_ids parse_expected_shape parsed_limit wants_dry_run
parse_ingest_cli_args argv max_documents =
    let flags = parse_flags argv in
    options_of flags (parse_law_ids argv (get "law-id" flags)) max_documents
