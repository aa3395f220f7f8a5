-- ===== src/Normalizer/Catalog/Sorted.antt =====
-- The aliases of a catalog stand in the order of their numbers of tokens, and each has a token.
use tore_legal_data_engine.Prelude.{
  ◌≤◌, String, List, [], ◌∷◌, ◌++◌, map, false, ◌≡◌, arith, length, All, All-mono, All-append,
  Bool-cases, inl, inr, is_empty, subst,
}
use tore_legal_data_engine.Prelude.Keys.{has}
use tore_legal_data_engine.Prelude.Text.{join}
use tore_legal_data_engine.Prelude.Result.{Result, ok, ◌>>=◌, bind-eq-ok}
use tore_legal_data_engine.Normalizer.Text.{lemma_token}
use tore_legal_data_engine.Normalizer.Catalog.{
  LegalInstrument, CompiledAlias, comes_after, insert, sort_aliases, compile_aliases, compile_from,
  compile_instrument_catalog,
}

-- `b` has no more tokens than `a`.
abbrev pub IsShorter : CompiledAlias → CompiledAlias → Type 0
IsShorter a b = length b.tokens ≤ length a.tokens

abbrev pub IsSorted : List CompiledAlias → Type 0
IsSorted [] = Unit
IsSorted (a ∷ rest) = All (IsShorter a) rest × IsSorted rest

abbrev pub HasTokens : CompiledAlias → Type 0
HasTokens a = is_empty a.tokens ≡ false

All-insert :
    (P : CompiledAlias → Type 0) (a : CompiledAlias) (xs : List CompiledAlias)
    → P a
    → All P xs
    → All P (insert a xs)
unfolding insert
All-insert P a [] p h = (p, tt)
All-insert P a (b ∷ rest) p (q, h) = elim (Bool-cases (comes_after a b)) [
  | inl e ↦ rw e (q, All-insert P a rest p h)
  | inr e ↦ rw e (p, (q, h))
]

insert-IsSorted :
    (a : CompiledAlias) (xs : List CompiledAlias) → IsSorted xs → IsSorted (insert a xs)
unfolding insert
insert-IsSorted a [] h = (tt, tt)
insert-IsSorted a (b ∷ rest) (below, h) = elim (Bool-cases (comes_after a b)) [
  | inl e ↦ rw e (All-insert (IsShorter b) a rest (ground arith) below, insert-IsSorted a rest h)
  | inr e ↦
      let le : IsShorter a b = ground arith in
      rw e ((le, All-mono (IsShorter b) (IsShorter a) rest (λ x s. omega arith) below), (below, h))
]

sort_aliases-IsSorted : (xs : List CompiledAlias) → IsSorted (sort_aliases xs)
unfolding sort_aliases
sort_aliases-IsSorted [] = tt
sort_aliases-IsSorted (a ∷ rest) =
    insert-IsSorted a (sort_aliases rest) (sort_aliases-IsSorted rest)

All-sort_aliases :
    (P : CompiledAlias → Type 0) (xs : List CompiledAlias) → All P xs → All P (sort_aliases xs)
unfolding sort_aliases
All-sort_aliases P [] h = tt
All-sort_aliases P (a ∷ rest) (p, h) =
    All-insert P a (sort_aliases rest) p (All-sort_aliases P rest h)

module _ (tokenize_citation : String → List String) where
  compile_aliases-HasTokens :
      (instrument : LegalInstrument) (seen aliases : List String)
      → All HasTokens (compile_aliases tokenize_citation instrument seen aliases)
  unfolding compile_aliases
  compile_aliases-HasTokens instrument seen [] = tt
  compile_aliases-HasTokens instrument seen (alias ∷ rest) =
      let tokens = map lemma_token (tokenize_citation alias) in
      let key = join " " tokens in
      elim (Bool-cases (is_empty tokens)) [
        | inl e ↦ rw e (compile_aliases-HasTokens instrument seen rest)
        | inr e ↦ elim (Bool-cases (has key seen)) [
          | inl k ↦ rw (e, k) (compile_aliases-HasTokens instrument seen rest)
          | inr k ↦ rw (e, k) (e, compile_aliases-HasTokens instrument (key ∷ seen) rest)
        ]
      ]

  compile_from-HasTokens :
      (codes : List String) (instruments : List LegalInstrument) (compiled : List CompiledAlias)
      → compile_from tokenize_citation codes instruments ≡ ok compiled
      → All HasTokens compiled
  unfolding compile_from
  compile_from-HasTokens codes [] [] h = tt
  compile_from-HasTokens codes [] (a ∷ compiled) h = absurd (ground arith)
  compile_from-HasTokens codes (i ∷ rest) compiled h = elim (Bool-cases (has i.code codes)) [
    | inl e ↦ absurd (ground arith)
    | inr e ↦
        let next : List CompiledAlias → Result (List CompiledAlias) =
          λ more. ok (compile_aliases tokenize_citation i [] i.aliases ++ more) in
        let bound : compile_from tokenize_citation (i.code ∷ codes) rest >>= next ≡ ok compiled =
          ground arith in
        let (more, m, last) =
          bind-eq-ok (compile_from tokenize_citation (i.code ∷ codes) rest) next bound in
        let same : compile_aliases tokenize_citation i [] i.aliases ++ more ≡ compiled = cc in
        subst (All HasTokens) same (
          All-append HasTokens (compile_aliases tokenize_citation i [] i.aliases) more
            (compile_aliases-HasTokens i [] i.aliases)
            (compile_from-HasTokens (i.code ∷ codes) rest more m))
  ]

  pub compile_instrument_catalog-IsSorted :
      (instruments : List LegalInstrument) (catalog : List CompiledAlias)
      → compile_instrument_catalog tokenize_citation instruments ≡ ok catalog
      → IsSorted catalog × All HasTokens catalog
  unfolding compile_instrument_catalog
  compile_instrument_catalog-IsSorted instruments catalog h =
      let (compiled, c, last) =
        bind-eq-ok (compile_from tokenize_citation [] instruments)
          (λ compiled. ok (sort_aliases compiled)) h in
      let same : sort_aliases compiled ≡ catalog = cc in
      (
        subst IsSorted same (sort_aliases-IsSorted compiled),
        subst (All HasTokens) same (
            All-sort_aliases HasTokens compiled (compile_from-HasTokens [] instruments compiled c)),
      )
