-- ===== src/Prelude/Text.antt =====
-- Texts as a TypeScript program reads them: white space, trimming, templates.
use Prim.Native.Char.{code}
use Prim.Native.Nat.{ℕ, zero, suc, ◌+◌, ◌-◌, ◌*◌}
use Prim.Native.String.{String, [], ◌∷◌}
use Prim.Native.String
use mathlib.Core.Bool.{Bool, true, false, ◌&&◌, ◌||◌}
use mathlib.Core.List.{List}
use mathlib.Core.Option.{Option, none, some}
use tore_legal_data_engine.Prelude.Int.{ℤ, pos, negsuc}
use tore_legal_data_engine.Prelude.Tests.{leb, eqb, if◌then◌else◌}

infixr 65 ◌<>◌
-- The parts of a template literal, one after the other.
abbrev pub ◌<>◌ : String → String → String
a <> b = String.◌++◌ a b

-- The white space and line terminators of ECMAScript, which `trim` and `\s` know.
abbrev pub is_space : ℕ → Bool
is_space c =
    (leb 9 c && leb c 13)
    || (eqb c 32
        || (eqb c 0xa0
            || (eqb c 0x1680
                || ((leb 0x2000 c && leb c 0x200a)
                    || (eqb c 0x2028
                        || (eqb c 0x2029
                            || (eqb c 0x202f
                                || (eqb c 0x205f || (eqb c 0x3000 || eqb c 0xfeff)))))))))

-- `!text.trim()`
unfoldable pub is_blank : String → Bool
is_blank [] = true
is_blank (c ∷ s) = is_space (code c) && is_blank s

-- `text.trimStart()`
unfoldable pub trim_start : String → String
trim_start [] = []
trim_start (c ∷ s) = let rest = trim_start s in if is_space (code c) then rest else c ∷ s

-- `text.trimEnd()`
unfoldable pub trim_end : String → String
unfolding is_blank
trim_end [] = []
trim_end (c ∷ s) = if is_blank (c ∷ s) then [] else c ∷ trim_end s

-- `text.trim()`
unfoldable pub trim : String → String
unfolding trim_start trim_end
trim s = trim_end (trim_start s)

-- `text.replace(/\s+/g, " ")`; the flag tells that the character before was white space.
collapse_from : Bool → String → String
collapse_from after [] = []
collapse_from after (c ∷ s) =
    let rest = collapse_from (is_space (code c)) s in
    if is_space (code c) then (if after then rest else " " <> rest) else c ∷ rest

unfoldable pub collapse_spaces : String → String
unfolding collapse_from
collapse_spaces s = collapse_from false s

-- `texts.join(sep)`
unfoldable pub join : String → List String → String
join sep List.[] = ""
join sep (List.◌∷◌ x List.[]) = x
join sep (List.◌∷◌ x (List.◌∷◌ y ys)) = x <> sep <> join sep (List.◌∷◌ y ys)

-- A `string | null` in a template literal.
abbrev pub show_opt : Option String → String
show_opt none = "null"
show_opt (some s) = s

-- `text.length`: UTF-16 code units.
abbrev pub utf16_length : String → ℕ
utf16_length [] = 0
utf16_length (c ∷ s) = (if leb 0x10000 (code c) then 2 else 1) + utf16_length s

abbrev shifted : Option ℕ → ℕ
shifted none = 0
shifted (some n) = n * 10

-- The digits at the front of a text, as a number.
digits_value : Option ℕ → String → Option ℕ
digits_value acc [] = acc
digits_value acc (c ∷ s) =
    let d = code c in
    let more = digits_value (some (shifted acc + (d - 48))) s in
    if leb b'0' d && leb d b'9' then more else acc

-- `Number.parseInt(text, 10)` where it is a natural number; `none` for NaN and for a text with a
-- minus sign, which stands for a number below one.
unfoldable pub parse_natural : String → Option ℕ
unfolding digits_value trim_start
parse_natural text = elim (trim_start text) [
  | [] ↦ none
  | c ∷ s ↦ if eqb (code c) b'+' then digits_value none s else digits_value none (c ∷ s)
]

abbrev negated : Option ℕ → Option ℤ
negated none = none
negated (some zero) = some (pos 0)
negated (some (suc n)) = some (negsuc n)

abbrev as_pos : Option ℕ → Option ℤ
as_pos none = none
as_pos (some n) = some (pos n)

-- `Number.parseInt(text, 10)`; `none` is NaN, and the number is exact.
unfoldable pub parse_int : String → Option ℤ
unfolding digits_value trim_start
parse_int text = elim (trim_start text) [
  | [] ↦ none
  | c ∷ s ↦
      if eqb (code c) b'-'
      then negated (digits_value none s)
      else if eqb (code c) b'+'
      then as_pos (digits_value none s)
      else as_pos (digits_value none (c ∷ s))
]

-- The text before the first `^`, which is `text.split("^")[0]`.
unfoldable pub before_caret : String → String
before_caret [] = []
before_caret (c ∷ s) = let rest = before_caret s in if eqb (code c) b'^' then [] else c ∷ rest

-- `text.slice(0, n)`, in UTF-16 code units; half of a surrogate pair is dropped.
unfoldable pub slice_start : ℕ → String → String
slice_start zero s = []
slice_start (suc n) [] = []
slice_start (suc n) (c ∷ s) =
    let narrow = slice_start n s in
    let wide = slice_start (n - 1) s in
    if leb 0x10000 (code c) then if eqb n 0 then [] else c ∷ wide else c ∷ narrow
