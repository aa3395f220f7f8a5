-- ===== src/Regex/Sound.antt =====
-- A match that succeeds has reached its continuation, at a cursor whose remaining text is a suffix
-- of the text it began with.
use Prim.Native.Char.{Char, code}
use Prim.Native.String.{[], ◌∷◌}
use tore_legal_data_engine.Prelude.{
  ℕ, zero, suc, ◌+◌, String, Option, none, some, Bool, true, false, ◌≡◌, arith, Bool-cases, inl,
  inr, if◌then◌else◌, leb,
}
use tore_legal_data_engine.Regex.{
  Regex, Cursor, Captures, Next, one_of, nothing, at_start, at_end, word_boundary, seq, alt, star,
  lazy_star, group, match, char_step, first_of_two, repeat_greedy, repeat_lazy, chars,
}

module _ (P : String → Type 0) (P-tail : (c : Char) (s : String) → P (c ∷ s) → P s) where
  -- Where a continuation succeeded.
  pub record Reached (k : Next) (x : Captures) : Type 0 where
    pub cursor : Cursor
    pub captures : Captures
    pub holds : P cursor.left
    pub reached : k cursor captures ≡ some x

  abbrev pub IsSound : (Cursor → Captures → Next → Option Captures) → Type 0
  IsSound round =
      (cur : Cursor) (caps : Captures) (k : Next) (x : Captures)
      → P cur.left
      → round cur caps k ≡ some x
      → Reached k x

  char_step-reached :
      (p : ℕ → Bool) (n : ℕ) (s : String) (caps : Captures) (k : Next) (x : Captures)
      → P s
      → char_step p n s caps k ≡ some x
      → Reached k x
  unfolding char_step
  char_step-reached p n [] caps k x h e = cc
  char_step-reached p n (c ∷ s) caps k x h e = elim (Bool-cases (p (code c))) [
    | inl y ↦ record {
      cursor = record { before = some (code c); position = n + 1; left = s };
      captures = caps;
      holds = P-tail c s h;
      reached = rw y at e;
    }
    | inr y ↦ absurd (ground arith)
  ]

  first-IsSound :
      (a b : Option Captures) (k : Next) (x : Captures)
      → first_of_two a b ≡ some x
      → (a ≡ some x → Reached k x)
      → (b ≡ some x → Reached k x)
      → Reached k x
  unfolding first_of_two
  first-IsSound none b k x e f g = g e
  first-IsSound (some a) b k x e f g = f e

  here :
      (cur : Cursor) (caps : Captures) (k : Next) (x : Captures)
      → P cur.left
      → k cur caps ≡ some x
      → Reached k x
  here cur caps k x h e = record { cursor = cur; captures = caps; holds = h; reached = e }

  guarded :
      (b : Bool) (cur : Cursor) (caps : Captures) (k : Next) (x : Captures)
      → P cur.left
      → (if b then k cur caps else none) ≡ some x
      → Reached k x
  guarded true cur caps k x h e = here cur caps k x h e
  guarded false cur caps k x h e = cc

  unguarded :
      (b : Bool) (m : Option Captures) (x : Captures)
      → (if b then none else m) ≡ some x
      → m ≡ some x
  unguarded true m x e = cc
  unguarded false m x e = e

  repeat_greedy-IsSound :
      (round : Cursor → Captures → Next → Option Captures)
      → IsSound round
      → (f : ℕ) → IsSound (repeat_greedy round f)
  unfolding repeat_greedy
  repeat_greedy-IsSound round sound zero cur caps k x h e = here cur caps k x h e
  repeat_greedy-IsSound round sound (suc f) cur caps k x h e =
      first-IsSound _ _ k x e
        (λ a.
          let r = sound cur caps _ x h a in
          repeat_greedy-IsSound round sound f r.cursor r.captures k x r.holds
            (unguarded (leb r.cursor.position cur.position) _ x r.reached))
        (λ b. here cur caps k x h b)

  repeat_lazy-IsSound :
      (round : Cursor → Captures → Next → Option Captures)
      → IsSound round
      → (f : ℕ) → IsSound (repeat_lazy round f)
  unfolding repeat_lazy
  repeat_lazy-IsSound round sound zero cur caps k x h e = here cur caps k x h e
  repeat_lazy-IsSound round sound (suc f) cur caps k x h e =
      first-IsSound _ _ k x e (λ b. here cur caps k x h b)
        (λ a.
          let r = sound cur caps _ x h a in
          repeat_lazy-IsSound round sound f r.cursor r.captures k x r.holds
            (unguarded (leb r.cursor.position cur.position) _ x r.reached))

  pub match-IsSound : (r : Regex) → IsSound (match r)
  unfolding match
  match-IsSound (one_of p) cur caps k x h e = char_step-reached p cur.position cur.left caps k x h e
  match-IsSound nothing cur caps k x h e = here cur caps k x h e
  match-IsSound at_start cur caps k x h e = guarded _ cur caps k x h e
  match-IsSound at_end cur caps k x h e = guarded _ cur caps k x h e
  match-IsSound word_boundary cur caps k x h e = guarded _ cur caps k x h e
  match-IsSound (seq r s) cur caps k x h e =
      let m = match-IsSound r cur caps _ x h e in
      match-IsSound s m.cursor m.captures k x m.holds m.reached
  match-IsSound (alt r s) cur caps k x h e =
      first-IsSound _ _ k x e (match-IsSound r cur caps k x h) (match-IsSound s cur caps k x h)
  match-IsSound (star r) cur caps k x h e =
      repeat_greedy-IsSound (match r) (match-IsSound r) (suc (chars cur.left)) cur caps k x h e
  match-IsSound (lazy_star r) cur caps k x h e =
      repeat_lazy-IsSound (match r) (match-IsSound r) (suc (chars cur.left)) cur caps k x h e
  match-IsSound (group n r) cur caps k x h e =
      let m = match-IsSound r cur caps _ x h e in
      record { cursor = m.cursor; captures = _; holds = m.holds; reached = m.reached }
