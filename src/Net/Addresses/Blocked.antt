-- ===== src/Net/Addresses/Blocked.antt =====
-- Which addresses ssrf.ts blocks for certain.
use Prim.Native.Char.{code}
use Prim.Native.String.{[], ◌∷◌}
use text.Mathlib.TextLemmas.{head-eq_of_cons-eq}
use tore_legal_data_engine.Prelude.{
  ℕ, ◌+◌, String, Option, none, some, List, Bool, true, false, ◌&&◌, ◌||◌, ◌≡◌, ◌⊎◌, refl, arith,
  sym, ap, ◌∙◌, if◌then◌else◌, eqb, eq_iff, ◌==◌, Bool-cases, inl, inr,
}
use tore_legal_data_engine.Prelude.Text.{trim}
use tore_legal_data_engine.Regex.{
  Regex, Cursor, Captures, at_start, seq, lit, test, search_text, search_from, match_at, match,
  char_step, match_char, first_of_two,
}
use tore_legal_data_engine.Net.Addresses.{
  is_blocked_ip, ipv4_private, ipv6_private, mapped_re, mapped_of, has_colon,
}
use tore_legal_data_engine.Net.Addresses.Ranges.{ipv4_ranges, ipv6_ranges}

-- The text begins with the other, which stands first.
unfoldable pub begins : String → String → Bool
begins [] s = true
begins (a ∷ p) [] = false
begins (a ∷ p) (b ∷ s) = (a ∷ []) == (b ∷ []) && begins p s

unfoldable pub begins_any : List String → String → Bool
unfolding begins
begins_any List.[] s = false
begins_any (List.◌∷◌ p ps) s = begins p s || begins_any ps s

unfoldable pub holds_colon : String → Bool
holds_colon [] = false
holds_colon (c ∷ s) = eqb (code c) b':' || holds_colon s

-- An IPv6 address, which has a colon, or an IPv4 address that is in one of the ranges, is the loopback
-- or unspecified.
unfoldable pub is_private : String → Bool
unfolding begins_any holds_colon
is_private ip =
    if holds_colon ip
    then (ip == "::1" || ip == "::") || begins_any ipv6_ranges ip
    else begins_any ipv4_ranges ip

extend : String → String → String
extend [] rest = rest
extend (c ∷ p) rest = c ∷ extend p rest

begins-extend : (p s : String) → begins p s ≡ true → (rest : String) × (s ≡ extend p rest)
unfolding begins extend
begins-extend [] s h = (s, refl)
begins-extend (a ∷ p) [] h = absurd (cc)
begins-extend (a ∷ p) (b ∷ s) h =
    let (rest, e) = begins-extend p s (ground arith) in
    let first : a ≡ b = head-eq_of_cons-eq ((eq_iff (a ∷ []) (b ∷ [])).0 (ground arith)) in
    (rest, ap (λ c. c ∷ s) (sym first) ∙ ap (λ t. a ∷ t) e)

-- A test that holds of every text beginning with one of some texts.
all_hold : (String → Bool) → List String → String → Bool
unfolding extend
all_hold f List.[] rest = true
all_hold f (List.◌∷◌ p ps) rest = f (extend p rest) && all_hold f ps rest

left_true : (a b : Bool) → (a && b) ≡ true → a ≡ true
left_true a b h = ground arith

right_true : (a b : Bool) → (a && b) ≡ true → b ≡ true
right_true a b h = ground arith

begins_any-holds :
    (f : String → Bool) (ps : List String) (s : String)
    → ((rest : String) → all_hold f ps rest ≡ true)
    → begins_any ps s ≡ true
    → f s ≡ true
unfolding all_hold begins_any
begins_any-holds f List.[] s all h = absurd (cc)
begins_any-holds f (List.◌∷◌ p ps) s all h = elim (Bool-cases (begins p s)) [
  | inl e ↦
      let (rest, same) = begins-extend p s e in
      ap f same ∙ left_true (f (extend p rest)) (all_hold f ps rest) (all rest)
  | inr e ↦
      begins_any-holds f ps s
        (λ rest. right_true (f (extend p rest)) (all_hold f ps rest) (all rest)) (ground arith)
]

is_none : Option Captures → Bool
is_none none = true
is_none (some c) = false

at_front : String → Cursor
at_front s = record { before = none; position = 0; left = s }

ipv4_match : (rest : String) → all_hold (test ipv4_private) ipv4_ranges rest ≡ true
unfolding all_hold extend test ipv4_private search_text search_from match_at match char_step
    match_char first_of_two
ipv4_match rest = refl

ipv6_match : (rest : String) → all_hold (test ipv6_private) ipv6_ranges rest ≡ true
unfolding all_hold extend test ipv6_private search_text search_from match_at match char_step
    match_char first_of_two
ipv6_match rest = refl

ipv6_unmapped :
    (rest : String)
    → all_hold (λ s. is_none (match_at mapped_re (at_front s))) ipv6_ranges rest ≡ true
unfolding all_hold extend is_none at_front mapped_re match_at match char_step match_char
    first_of_two
ipv6_unmapped rest = refl

later : (n : ℕ) → eqb (n + 1) 0 ≡ false
later n = ground arith

is_none-eq : (o : Option Captures) → is_none o ≡ true → o ≡ none
unfolding is_none
is_none-eq none h = refl
is_none-eq (some c) h = absurd (cc)

-- A pattern for the start of a text is found nowhere else.
start_only :
    (r : Regex) (b : Option ℕ) (n : ℕ) (s : String)
    → search_from (seq at_start r) b (n + 1) s ≡ none
unfolding search_from match_at match first_of_two
start_only r b n [] = rw (later n) refl
start_only r b n (c ∷ s) = rw (later n) (start_only r (some (code c)) (n + 1) s)

search-start :
    (r : Regex) (s : String)
    → is_none (match_at (seq at_start r) (at_front s)) ≡ true
    → search_text (seq at_start r) s ≡ none
unfolding search_text search_from is_none at_front first_of_two
search-start r [] h = is_none-eq _ h
search-start r (c ∷ s) h = rw (is_none-eq _ h) (start_only r (some (code c)) 0 s)

-- `/:/.test(text)` tells whether there is a colon.
search-colon :
    (b : Option ℕ) (n : ℕ) (s : String)
    → ((holds_colon s ≡ true) × ((x : Captures) × (search_from (lit ":") b n s ≡ some x)))
      ⊎ ((holds_colon s ≡ false) × (search_from (lit ":") b n s ≡ none))
unfolding search_from match_at match char_step match_char first_of_two holds_colon
search-colon b n [] = inr (refl, refl)
search-colon b n (c ∷ s) = elim (Bool-cases (eqb (code c) b':')) [
  | inl e ↦ inl (rw e refl, (List.[], rw e refl))
  | inr e ↦ rw e (search-colon (some (code c)) (n + 1) s)
]

test-some : (r : Regex) (s : String) (x : Captures) → search_text r s ≡ some x → test r s ≡ true
unfolding test
test-some r s x e = rw (test, e) refl

test-none : (r : Regex) (s : String) → search_text r s ≡ none → test r s ≡ false
unfolding test
test-none r s e = rw (test, e) refl

has_colon_eq : (s : String) → has_colon s ≡ holds_colon s
unfolding search_text
has_colon_eq s = elim (search-colon none 0 s) [
  | inl (h, (x, e)) ↦ test-some (lit ":") s x e ∙ sym h
  | inr (h, e) ↦ test-none (lit ":") s e ∙ sym h
]

one_of_three : (a b c : Bool) → ((a || b) || c) ≡ true → (a ≡ true) ⊎ ((b ≡ true) ⊎ (c ≡ true))
one_of_three a b c h = ground arith

-- A property of "::1", of "::" and of every address of the IPv6 ranges.
ipv6_cases :
    (f : String → Bool) (ip : String)
    → f "::1" ≡ true
    → f "::" ≡ true
    → ((rest : String) → all_hold f ipv6_ranges rest ≡ true)
    → ((ip == "::1" || ip == "::") || begins_any ipv6_ranges ip) ≡ true
    → f ip ≡ true
ipv6_cases f ip loopback unspecified ranges h =
    elim (one_of_three (ip == "::1") (ip == "::") (begins_any ipv6_ranges ip) h) [
      | inl e ↦ ap f ((eq_iff ip "::1").0 e) ∙ loopback
      | inr (inl e) ↦ ap f ((eq_iff ip "::").0 e) ∙ unspecified
      | inr (inr e) ↦ begins_any-holds f ipv6_ranges ip ranges e
    ]

-- An address of the IPv6 ranges does not look like a mapped IPv4 address.
unmapped :
    (ip : String)
    → ((ip == "::1" || ip == "::") || begins_any ipv6_ranges ip) ≡ true
    → search_text mapped_re ip ≡ none
unfolding mapped_re is_none at_front match_at match char_step match_char first_of_two
unmapped ip h =
    search-start _ ip
      (ipv6_cases (λ s. is_none (match_at mapped_re (at_front s))) ip refl refl ipv6_unmapped h)

ipv6_blocked :
    (ip : String)
    → ((ip == "::1" || ip == "::") || begins_any ipv6_ranges ip) ≡ true
    → test ipv6_private ip ≡ true
unfolding test search_text search_from match_at match char_step match_char first_of_two ipv6_private
ipv6_blocked ip h = ipv6_cases (test ipv6_private) ip refl refl ipv6_match h

-- An address that is private, as this is told above, is blocked.
is_private-blocked :
    (address : String) → is_private (trim address) ≡ true → is_blocked_ip address ≡ true
unfolding is_private is_blocked_ip
is_private-blocked address h = blocked (trim address) h
  where
    blocked :
        (ip : String)
        → is_private ip ≡ true
        → (if has_colon ip
            then elim (mapped_of (search_text mapped_re ip)) as (λ x. Bool) [
              | some v4 ↦ test ipv4_private v4
              | none ↦ test ipv6_private ip
            ]
            else test ipv4_private ip)
          ≡ true
    blocked ip k = elim (Bool-cases (holds_colon ip)) [
      | inl e ↦
          let v6 : ((ip == "::1" || ip == "::") || begins_any ipv6_ranges ip) ≡ true = rw e at k in
          rw (has_colon_eq ip, e, unmapped ip v6) (ipv6_blocked ip v6)
      | inr e ↦
          rw (has_colon_eq ip, e)
            (begins_any-holds (test ipv4_private) ipv4_ranges ip ipv4_match (rw e at k))
    ]

-- The address is not private, as this is told above.
abbrev pub IsPublic : String → Type 0
IsPublic address = is_private (trim address) ≡ false

pub unblocked-IsPublic : (address : String) → is_blocked_ip address ≡ false → IsPublic address
unblocked-IsPublic address h = ground (arith, is_private-blocked address)
