-- ===== src/Storage/Local/Keys.antt =====
-- The key of a blob tells its digest.
use Prim.Native.Char.{Char}
use Prim.Native.String.{[], ◌∷◌}
use Prim.Native.String.append
use tore_legal_data_engine.Prelude.{
  ℕ, zero, suc, String, ◌≡◌, refl, arith, true, Bool-cases, inl, inr, ◌∙◌, sym, ap,
}
use tore_legal_data_engine.Prelude.Text.{◌<>◌}
use tore_legal_data_engine.Prelude.Result.{ok}
use tore_legal_data_engine.Storage.{content_address_key, is_hex_run, key_text}

pub content_address_key_eq :
    (a key : String)
    → content_address_key a ≡ ok key
    → (is_hex_run 64 a ≡ true) × (key_text a ≡ key)
unfolding content_address_key
content_address_key_eq a key p = elim (Bool-cases (is_hex_run 64 a)) [
  | inl h ↦ ground arith
  | inr h ↦ ground arith
]

cut :
    (n : ℕ) (s : String)
    → is_hex_run (suc n) s ≡ true
    → (c : Char) × (r : String) × (s ≡ c ∷ r) × (is_hex_run n r ≡ true)
unfolding is_hex_run
cut n [] h = cc
cut n (c ∷ s) h = (c, s, refl, ground arith)

drop_chars : ℕ → String → String
drop_chars zero s = s
drop_chars (suc n) [] = []
drop_chars (suc n) (c ∷ s) = drop_chars n s

abbrev Begins : String → Type 0
Begins s = (a b c d : Char) × (r : String) × (s ≡ a ∷ b ∷ c ∷ d ∷ r)

begins : (s : String) → is_hex_run 64 s ≡ true → Begins s
begins s p =
    let (a, r1, e1, p1) = cut 63 s p in
    let (b, r2, e2, p2) = cut 62 r1 p1 in
    let (c, r3, e3, p3) = cut 61 r2 p2 in let (d, r4, e4, p4) = cut 60 r3 p3 in (a, b, c, d, r4, cc)

size : String → ℕ
size [] = 0
size (c ∷ s) = suc (size s)

drop_chars-append : (s t : String) → drop_chars (size s) (s <> t) ≡ t
unfolding drop_chars size
drop_chars-append [] t = append.nil t
drop_chars-append (c ∷ s) t =
    ap (drop_chars (suc (size s))) (append.cons c s t) ∙ drop_chars-append s t

-- The digest at the end of a key.
digest_of : String → String
unfolding drop_chars
digest_of key = drop_chars 1 (drop_chars 2 (drop_chars 1 (drop_chars 2 (drop_chars 7 key))))

digest_of-key_text :
    (a b c d : Char) (r : String) → digest_of (key_text (a ∷ b ∷ c ∷ d ∷ r)) ≡ a ∷ b ∷ c ∷ d ∷ r
unfolding key_text digest_of size
digest_of-key_text a b c d r =
    let s = a ∷ b ∷ c ∷ d ∷ r in
    let end = "/" <> s in
    let middle = (c ∷ d ∷ "") <> end in
    let fan = (a ∷ b ∷ "") <> "/" <> middle in
    ap (λ k. drop_chars 1 (drop_chars 2 (drop_chars 1 (drop_chars 2 k))))
      (drop_chars-append "sha256/" fan)
    ∙ ap (λ k. drop_chars 1 (drop_chars 2 (drop_chars 1 k)))
        (drop_chars-append (a ∷ b ∷ "") ("/" <> middle))
    ∙ ap (λ k. drop_chars 1 (drop_chars 2 k)) (drop_chars-append "/" middle)
    ∙ ap (drop_chars 1) (drop_chars-append (c ∷ d ∷ "") end)
    ∙ drop_chars-append "/" s

key_text-inj : (a b : String) → Begins a → Begins b → key_text a ≡ key_text b → a ≡ b
key_text-inj a b (c, d, e, f, r, p) (g, h, i, j, s, q) k =
    p
    ∙ sym (digest_of-key_text c d e f r)
    ∙ ap digest_of (sym (ap key_text p) ∙ k ∙ ap key_text q)
    ∙ digest_of-key_text g h i j s
    ∙ sym q

pub content_address_key-inj :
    (a b key : String) → content_address_key a ≡ ok key → content_address_key b ≡ ok key → a ≡ b
content_address_key-inj a b key p q =
    let (ha, ka) = content_address_key_eq a key p in
    let (hb, kb) = content_address_key_eq b key q in
    key_text-inj a b (begins a ha) (begins b hb) (ka ∙ sym kb)
