-- ===== src/Ingest/Cli/Flags.antt =====
-- Where the flags of a command line come from.
use Prim.Native.Char.{Char}
use Prim.Native.String
use Prim.Native.String.append
use text.Mathlib.TextLemmas.{head-eq_of_cons-eq}
use tore_legal_data_engine.Prelude.{
  String, Option, none, some, List, [], ◌∷◌, Bool, true, false, ◌≡◌, ◌⊎◌, inl, inr, refl, arith,
  sym, ap, ◌∙◌, ◌==◌, eq_iff, head?, Bool-cases, Option-cases, ◌&&◌,
}
use tore_legal_data_engine.Prelude.Maps.{StringMap, get, set, get-set}
use tore_legal_data_engine.Prelude.Text.{◌<>◌}
use tore_legal_data_engine.Ingest.Cli.{
  is_char, after_dashes, split_eq, no_value, plain_flag, flag_step, flags_from, parse_flags,
}

-- No value can follow: the arguments end, or the next one is empty or a flag itself.
abbrev pub EndsFlag : Option String → Type 0
EndsFlag next = (next ≡ none) ⊎ ((next ≡ some "") ⊎ ((s : String) × (next ≡ some ("--" <> s))))

-- Some argument gives the key the value: `--key=value`, `--key` that no value follows, which gives
-- "true", or `--key` and the value after it.
pub data Gives (key value : String) : List String → Type 0 where
  joined :
      (token : String) (rest : List String)
      → token ≡ "--" <> key <> "=" <> value
      → Gives key value (token ∷ rest)
  alone :
      (token : String) (rest : List String)
      → token ≡ "--" <> key
      → value ≡ "true"
      → EndsFlag (head? rest)
      → Gives key value (token ∷ rest)
  followed :
      (token : String) (rest : List String)
      → token ≡ "--" <> key
      → head? rest ≡ some value
      → Gives key value (token ∷ rest)
  later :
      (token : String) (rest : List String) → Gives key value rest → Gives key value (token ∷ rest)

abbrev one : Char → String
one c = Prim.Native.String.◌∷◌ c Prim.Native.String.[]

is_char-eq :
    (a c : Char) → is_char (Prim.Native.String.◌∷◌ a Prim.Native.String.[]) c ≡ true → c ≡ a
is_char-eq a c h = head-eq_of_cons-eq ((eq_iff _ _).0 h)

two_dashes : (s : String) → "--" <> s ≡ Prim.Native.String.◌∷◌ "-" (Prim.Native.String.◌∷◌ "-" s)
two_dashes s =
    append.cons "-" "-" s
    ∙ ap (Prim.Native.String.◌∷◌ "-")
        (append.cons "-" "" s ∙ ap (Prim.Native.String.◌∷◌ "-") (append.nil s))

after_dashes-eq : (t s : String) → after_dashes t ≡ some s → t ≡ "--" <> s
unfolding after_dashes
after_dashes-eq Prim.Native.String.[] s h = absurd (cc)
after_dashes-eq (Prim.Native.String.◌∷◌ a Prim.Native.String.[]) s h = absurd (cc)
after_dashes-eq (Prim.Native.String.◌∷◌ a (Prim.Native.String.◌∷◌ b r)) s h =
    elim (Bool-cases (is_char "-" a && is_char "-" b)) [
      | inr e ↦ absurd (ground arith)
      | inl e ↦
          let first : a ≡ "-" = is_char-eq "-" a (ground arith) in
          let second : b ≡ "-" = is_char-eq "-" b (ground arith) in
          let rest : r ≡ s = ground arith in rw (first, second, rest) (sym (two_dashes s))
    ]

before_all : (c : Char) (s : String) → one c <> s ≡ Prim.Native.String.◌∷◌ c s
before_all c s = append.cons c "" s ∙ ap (Prim.Native.String.◌∷◌ c) (append.nil s)

split_eq-eq : (s name value : String) → split_eq s ≡ some (name, value) → s ≡ name <> "=" <> value
unfolding split_eq
split_eq-eq Prim.Native.String.[] name value h = absurd (cc)
split_eq-eq (Prim.Native.String.◌∷◌ c s) name value h = elim (Bool-cases (is_char "=" c)) [
  | inl e ↦
      let first : c ≡ "=" = is_char-eq "=" c e in
      let none_before : "" ≡ name = ground arith in
      let rest : s ≡ value = ground arith in
      rw first (
        ap (Prim.Native.String.◌∷◌ "=") rest
        ∙ sym (before_all "=" value)
        ∙ sym (append.nil ("=" <> value))
        ∙ ap (λ n. n <> "=" <> value) none_before)
  | inr e ↦ elim (Option-cases (split_eq s)) [
    | inl n ↦ absurd (ground arith)
    | inr ((n, v), g) ↦
        let names : one c <> n ≡ name = ground arith in
        let rest : v ≡ value = ground arith in
        ap (Prim.Native.String.◌∷◌ c) (split_eq-eq s n v g)
        ∙ sym (append.cons c n ("=" <> v))
        ∙ ap (λ t. t <> "=" <> v) (sym (before_all c n) ∙ names)
        ∙ ap (λ w. name <> "=" <> w) rest
  ]
]

no_value-EndsFlag : (next : Option String) → no_value next ≡ true → EndsFlag next
no_value-EndsFlag none h = inl refl
no_value-EndsFlag (some s) h = elim (Bool-cases (s == "")) [
  | inl e ↦ inr (inl (ap some ((eq_iff s "").0 e)))
  | inr e ↦ elim (Option-cases (after_dashes s)) [
    | inl n ↦ absurd (ground arith)
    | inr (r, d) ↦ inr (inr (r, ap some (after_dashes-eq s r d)))
  ]
]

-- How one flag gives a key its value.
abbrev Given : String → String → String → Option String → Type 0
Given k v flag next =
    (flag ≡ k <> "=" <> v)
    ⊎ (((flag ≡ k) × (v ≡ "true") × EndsFlag next) ⊎ ((flag ≡ k) × (next ≡ some v)))

set-get :
    (k v name value : String) (flags : StringMap String)
    → get k (set name value flags) ≡ some v
    → (get k flags ≡ some v) ⊎ ((name ≡ k) × (value ≡ v))
set-get k v name value flags h = elim (Bool-cases (name == k)) [
  | inl e ↦ inr ((eq_iff name k).0 e, ground (arith, get-set name k value flags))
  | inr e ↦ inl (ground (arith, get-set name k value flags))
]

unsplit :
    (k v flag : String) (flags : StringMap String) (next : Option String)
    → get k (plain_flag flags flag next).0 ≡ some v
    → (get k flags ≡ some v) ⊎ Given k v flag next
unsplit k v flag flags none h = elim (set-get k v flag "true" flags h) [
  | inl old ↦ inl old
  | inr (same, given) ↦ inr (inr (inl (same, sym given, inl refl)))
]
unsplit k v flag flags (some x) h = elim (Bool-cases (no_value (some x))) [
  | inl n ↦ elim (set-get k v flag "true" flags (rw n at h)) [
    | inl old ↦ inl old
    | inr (same, given) ↦ inr (inr (inl (same, sym given, no_value-EndsFlag (some x) n)))
  ]
  | inr n ↦ elim (set-get k v flag x flags (rw n at h)) [
    | inl old ↦ inl old
    | inr (same, given) ↦ inr (inr (inr (same, ap some given)))
  ]
]

or_later :
    (k v token : String) (rest : List String) (P : Type 0)
    → P ⊎ Gives k v rest
    → P ⊎ Gives k v (token ∷ rest)
or_later k v token rest P (inl p) = inl p
or_later k v token rest P (inr g) = inr (later token rest g)

or_Given :
    (k v token flag : String) (rest : List String) (flags : StringMap String)
    → token ≡ "--" <> flag
    → (get k flags ≡ some v) ⊎ Given k v flag (head? rest)
    → (get k flags ≡ some v) ⊎ Gives k v (token ∷ rest)
or_Given k v token flag rest flags e (inl old) = inl old
or_Given k v token flag rest flags e (inr (inl j)) =
    inr (joined token rest (e ∙ ap (λ f. "--" <> f) j))
or_Given k v token flag rest flags e (inr (inr (inl (same, t, ends)))) =
    inr (alone token rest (e ∙ ap (λ f. "--" <> f) same) t ends)
or_Given k v token flag rest flags e (inr (inr (inr (same, next)))) =
    inr (followed token rest (e ∙ ap (λ f. "--" <> f) same) next)

flag_step-Given :
    (k v flag : String) (flags : StringMap String) (next : Option String)
    → get k (flag_step flags flag next).0 ≡ some v
    → (get k flags ≡ some v) ⊎ Given k v flag next
unfolding flag_step
flag_step-Given k v flag flags next h = elim (Option-cases (split_eq flag)) [
  | inr ((name, value), g) ↦ elim (set-get k v name value flags (rw (flag_step, g) at h)) [
    | inl old ↦ inl old
    | inr (same, given) ↦ inr (
        inl (
          split_eq-eq flag name value g
          ∙ ap (λ n. n <> "=" <> value) same
          ∙ ap (λ w. k <> "=" <> w) given))
  ]
  | inl g ↦ unsplit k v flag flags next (rw (flag_step, g) at h)
]

flags_from-Gives :
    (k v : String) (used : Bool) (flags : StringMap String) (argv : List String)
    → get k (flags_from used flags argv) ≡ some v
    → (get k flags ≡ some v) ⊎ Gives k v argv
unfolding flags_from
flags_from-Gives k v used flags [] h = inl h
flags_from-Gives k v true flags (token ∷ rest) h =
    or_later k v token rest _ (flags_from-Gives k v false flags rest h)
flags_from-Gives k v false flags (token ∷ rest) h = elim (Option-cases (after_dashes token)) [
  | inl n ↦
      or_later k v token rest _ (flags_from-Gives k v false flags rest (rw (flags_from, n) at h))
  | inr (flag, d) ↦
      let o = flag_step flags flag (head? rest) in
      elim (flags_from-Gives k v o.1 o.0 rest (rw (flags_from, d) at h)) [
        | inr given ↦ inr (later token rest given)
        | inl set_here ↦
            or_Given k v token flag rest flags (after_dashes-eq token flag d)
              (flag_step-Given k v flag flags (head? rest) set_here)
      ]
]

-- A value of a flag is given by an argument.
pub parse_flags-Gives :
    (k v : String) (argv : List String) → get k (parse_flags argv) ≡ some v → Gives k v argv
unfolding parse_flags get
parse_flags-Gives k v argv h = elim (flags_from-Gives k v false [] argv h) [
  | inl void ↦ absurd (cc void)
  | inr given ↦ given
]
