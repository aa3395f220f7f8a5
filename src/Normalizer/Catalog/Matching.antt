-- ===== src/Normalizer/Catalog/Matching.antt =====
-- Which alias is matched, and what is left of the tokens.
use tore_legal_data_engine.Prelude.{
  ℕ, zero, suc, ◌+◌, String, none, some, List, [], ◌∷◌, ◌++◌, map, true, false, ◌≡◌, refl, arith,
  length, All, Bool-cases, Option-cases, inl, inr, is_empty, subst, sym, ap, ◌∙◌, take, drop, ◌⊎◌,
  eq_iff, eq_refl,
}
use tore_legal_data_engine.Prelude.Result.{ok}
use tore_legal_data_engine.Normalizer.Text.{lemma_token}
use tore_legal_data_engine.Normalizer.Catalog.{
  LegalInstrument, CompiledAlias, InstrumentMatch, compile_instrument_catalog, begins_with,
  index_from, index_of_sequence, match_aliases, match_or, match_at,
}
use tore_legal_data_engine.Normalizer.Catalog.Sorted.{
  IsSorted, IsShorter, HasTokens, compile_instrument_catalog-IsSorted,
}

-- `tokens` are `before`, words of the alias, and `after`; what is left are those around the words.
pub record IsMatch (tokens : List String) (a : CompiledAlias) (m : InstrumentMatch) : Type 0 where
  pub before : List String
  pub words : List String
  pub after : List String
  pub parts : tokens ≡ before ++ (words ++ after)
  pub named : map lemma_token words ≡ a.tokens
  pub left : m.rest ≡ before ++ after
  pub owner : m.instrument ≡ a.instrument

abbrev pub Among : CompiledAlias → List CompiledAlias → Type 0
Among b [] = ⊥
Among b (a ∷ rest) = (b ≡ a) ⊎ Among b rest

begins_with-append : (needle s : List String) → begins_with needle (needle ++ s) ≡ true
unfolding begins_with
begins_with-append [] s = refl
begins_with-append (x ∷ needle) s = rw (eq_refl x, begins_with-append needle s) refl

index_from-append :
    (x : String) (needle p s : List String)
    → (i : ℕ) × (index_from (x ∷ needle) (p ++ ((x ∷ needle) ++ s)) ≡ some i)
unfolding index_from
index_from-append x needle [] s = (0, rw (begins_with-append (x ∷ needle) s) refl)
index_from-append x needle (y ∷ p) s =
    let (i, h) = index_from-append x needle p s in
    elim (Bool-cases (begins_with (x ∷ needle) (y ∷ p ++ ((x ∷ needle) ++ s)))) [
      | inl e ↦ (0, rw e refl)
      | inr e ↦ (suc i, rw (e, h) refl)
    ]

-- Where the tokens begin with the words of a needle.
begins_with-split :
    (needle tokens : List String)
    → begins_with needle (map lemma_token tokens) ≡ true
    → (words : List String) × (tokens ≡ words ++ drop (length needle) tokens)
      × (map lemma_token words ≡ needle)
unfolding begins_with
begins_with-split [] tokens h = ([], refl, refl)
begins_with-split (x ∷ needle) [] h = absurd (cc)
begins_with-split (x ∷ needle) (t ∷ tokens) h =
    let (words, e, n) = begins_with-split needle tokens (ground arith) in
    (t ∷ words, ap (λ ts. t ∷ ts) e, ground (arith, eq_iff (lemma_token t) x, n))

-- A match at an index, in three parts.
abbrev Split : List String → List String → ℕ → Type 0
Split needle tokens i =
    (words : List String) × (tokens ≡ take i tokens ++ (words ++ drop (i + length needle) tokens))
    × (map lemma_token words ≡ needle)

index_from-Split :
    (needle tokens : List String) (i : ℕ)
    → index_from needle (map lemma_token tokens) ≡ some i
    → Split needle tokens i
unfolding index_from
index_from-Split needle [] i h = absurd (ground arith)
index_from-Split needle (t ∷ tokens) zero h =
    let here : begins_with needle (lemma_token t ∷ map lemma_token tokens) ≡ true = ground arith in
    let (words, e, n) = begins_with-split needle (t ∷ tokens) here in
    let none_before : length needle ≡ 0 + length needle = omega arith in
    (words, e ∙ ap (λ k. words ++ drop k (t ∷ tokens)) none_before, n)
index_from-Split needle (t ∷ tokens) (suc i) h =
    let (words, e, n) = index_from-Split needle tokens i (ground arith) in
    let one_before : suc (i + length needle) ≡ suc i + length needle = omega arith in
    (
      words,
      ap (λ ts. t ∷ ts) e
          ∙ ap (λ k. t ∷ take i tokens ++ (words ++ drop k (t ∷ tokens))) one_before,
      n,
    )

index_of_sequence-Split :
    (needle tokens : List String) (i : ℕ)
    → index_of_sequence (map lemma_token tokens) needle ≡ some i
    → Split needle tokens i
unfolding index_of_sequence
index_of_sequence-Split [] tokens i h = absurd (cc)
index_of_sequence-Split (x ∷ needle) tokens i h = index_from-Split (x ∷ needle) tokens i h

index_of_sequence-append :
    (needle p s : List String)
    → is_empty needle ≡ false
    → (i : ℕ) × (index_of_sequence (p ++ (needle ++ s)) needle ≡ some i)
unfolding index_of_sequence
index_of_sequence-append [] p s h = absurd (cc)
index_of_sequence-append (x ∷ needle) p s h = index_from-append x needle p s

match_at-IsMatch :
    (tokens : List String) (a : CompiledAlias) (i : ℕ)
    → index_of_sequence (map lemma_token tokens) a.tokens ≡ some i
    → IsMatch tokens a (match_at tokens a i)
match_at-IsMatch tokens a i h =
    let (words, e, n) = index_of_sequence-Split a.tokens tokens i h in
    record {
      before = take i tokens;
      words = words;
      after = drop (i + length a.tokens) tokens;
      parts = e;
      named = n;
      left = refl;
      owner = refl;
    }

All-Among :
    (P : CompiledAlias → Type 0) (b : CompiledAlias) (xs : List CompiledAlias)
    → All P xs
    → Among b xs
    → P b
All-Among P b [] h m = absurd m
All-Among P b (a ∷ rest) (p, h) (inl e) = subst P (sym e) p
All-Among P b (a ∷ rest) (p, h) (inr m) = All-Among P b rest h m

no_longer :
    (a b : CompiledAlias) (rest : List CompiledAlias)
    → All (IsShorter a) rest
    → Among b (a ∷ rest)
    → IsShorter a b
no_longer a b rest below (inl e) = subst (IsShorter a) (sym e) (omega arith)
no_longer a b rest below (inr m) = All-Among (IsShorter a) b rest below m

-- An alias that occurs is not the first one, if that does not.
not_here :
    (tokens : List String) (a b : CompiledAlias) (rest : List CompiledAlias) (p s : List String)
    → index_of_sequence (map lemma_token tokens) a.tokens ≡ none
    → HasTokens a
    → Among b (a ∷ rest)
    → map lemma_token tokens ≡ p ++ (b.tokens ++ s)
    → Among b rest
not_here tokens a b rest p s none_here some_token (inr m) occurs = m
not_here tokens a b rest p s none_here some_token (inl e) occurs =
    let (i, h) = index_of_sequence-append a.tokens p s some_token in
    let here : map lemma_token tokens ≡ p ++ (a.tokens ++ s) =
      occurs ∙ ap (λ c. p ++ (c.tokens ++ s)) e in
    absurd (cc (ap (λ ts. index_of_sequence ts a.tokens) here))

-- With an alias among them that occurs, the aliases in order give a match of one that is no shorter.
match_aliases-longest :
    (tokens : List String) (aliases : List CompiledAlias) (b : CompiledAlias) (p s : List String)
    → IsSorted aliases
    → All HasTokens aliases
    → Among b aliases
    → map lemma_token tokens ≡ p ++ (b.tokens ++ s)
    → (m : InstrumentMatch) × (a : CompiledAlias) × (match_aliases tokens aliases ≡ some m)
      × Among a aliases
      × IsMatch tokens a m
      × IsShorter a b
unfolding match_aliases
match_aliases-longest tokens [] b p s sorted filled among occurs = absurd among
match_aliases-longest tokens (a ∷ rest) b p s (below, sorted) (some_token, filled) among occurs =
    elim (Option-cases (index_of_sequence (map lemma_token tokens) a.tokens)) [
      | inr (i, e) ↦ (
        match_at tokens a i,
        a,
        rw (e, match_or) refl,
        inl refl,
        match_at-IsMatch tokens a i e,
        no_longer a b rest below among,
      )
      | inl e ↦
          let (m, c, found, in_rest, is_match, le) =
            match_aliases-longest tokens rest b p s sorted filled
              (not_here tokens a b rest p s e some_token among occurs) occurs in
          (m, c, rw (e, match_or, found) refl, inr in_rest, is_match, le)
    ]

-- Where an alias of the catalog occurs in the tokens of a citation, an instrument is matched by an
-- alias of the catalog that has at least as many tokens: some of the citation's are the alias's up to
-- their inflection, the instrument is the alias's, and the tokens before and after them are left.
pub compile_instrument_catalog-IsMatch :
    (tokenize_citation : String → List String) (instruments : List LegalInstrument)
    (catalog : List CompiledAlias) (tokens : List String) (b : CompiledAlias) (p s : List String)
    → compile_instrument_catalog tokenize_citation instruments ≡ ok catalog
    → Among b catalog
    → map lemma_token tokens ≡ p ++ (b.tokens ++ s)
    → (m : InstrumentMatch) × (a : CompiledAlias) × (match_aliases tokens catalog ≡ some m)
      × Among a catalog
      × IsMatch tokens a m
      × IsShorter a b
compile_instrument_catalog-IsMatch tokenize_citation instruments catalog tokens b p s compiled among
      occurs =
    let (sorted, filled) =
      compile_instrument_catalog-IsSorted tokenize_citation instruments catalog compiled in
    match_aliases-longest tokens catalog b p s sorted filled among occurs
