-- ===== src/Corpus/Keeping.antt =====
-- Actions that write no version, and how they compose.
use tore_legal_data_engine.Prelude.{◌≡◌, ◌⊎◌, inl, inr, refl, sym, ap, ◌∙◌}
use tore_legal_data_engine.Prelude.Result.{Result, ok, err}
use tore_legal_data_engine.Corpus.Store.{Store, Action, ◌>>=◌, lift, after}

-- An action that writes no version.
abbrev pub Keeps : {A : Type 0} → Action A → Type 0
Keeps m = (s : Store) → (m s).1.versions ≡ s.versions

abbrev pub Same : Store → Store → Type 0
Same t s = t.versions ≡ s.versions

module _ {A B : Type 0} (P : Type 0) where
  -- After a step that writes no version, what holds of the rest holds of the whole.
  pub bind-run :
      (m : Action A) (f : A → Action B) (s t : Store) (r : Result B)
      → (m >>= f) s ≡ (r, t)
      → Keeps m
      → ((a : A) (u : Store) → m s ≡ (ok a, u) → f a u ≡ (r, t) → Same t u ⊎ P)
      → Same t s ⊎ P
  bind-run m f s t r h keeps rest = go (m s) refl h (keeps s)
    where
      along : (u : Store) → Same u s → Same t u ⊎ P → Same t s ⊎ P
      along u e (inl d) = inl (d ∙ e)
      along u e (inr p) = inr p

      go : (o : Result A × Store) → m s ≡ o → after o f ≡ (r, t) → Same o.1 s → Same t s ⊎ P
      go (ok a, u) q k e = along u e (rest a u q k)
      go (err x, u) q k e = inl (sym (ap (λ o. o.1.versions) k) ∙ e)

  -- The same where nothing is asked of the step.
  pub bind-step :
      (m : Action A) (f : A → Action B) (s t : Store) (r : Result B)
      → (m >>= f) s ≡ (r, t)
      → Keeps m
      → ((a : A) (u : Store) → f a u ≡ (r, t) → Same t u ⊎ P)
      → Same t s ⊎ P
  bind-step m f s t r h keeps rest = bind-run m f s t r h keeps (λ a u q k. rest a u k)

  -- A step that only computes: the rest runs in the same store, with what was computed.
  pub bind-lift :
      (m : Result A) (f : A → Action B) (s t : Store) (r : Result B)
      → (lift m >>= f) s ≡ (r, t)
      → ((a : A) → m ≡ ok a → f a s ≡ (r, t) → Same t s ⊎ P)
      → Same t s ⊎ P
  bind-lift (ok a) f s t r h rest = rest a refl h
  bind-lift (err x) f s t r h rest = inl (sym (ap (λ o. o.1.versions) h))

pub Keeps-of_runs :
    {A : Type 0} (m : Action A) → ((s t : Store) (r : Result A) → m s ≡ (r, t) → Same t s) → Keeps m
Keeps-of_runs m f s = f s (m s).1 (m s).0 refl

pub Same-of_sum : (t s : Store) → Same t s ⊎ ⊥ → Same t s
Same-of_sum t s (inl e) = e
Same-of_sum t s (inr n) = absurd n

-- An action that writes no version, run.
pub kept :
    {A : Type 0} (m : Action A) (s t : Store) (r : Result A) → Keeps m → m s ≡ (r, t) → Same t s
kept m s t r keeps h = sym (ap (λ o. o.1.versions) h) ∙ keeps s
