-- ===== src/Corpus/Jobs/Leaving.antt =====
-- Actions that write no job, and how they compose.
use tore_legal_data_engine.Prelude.{◌≡◌, refl, sym, ap, ◌∙◌}
use tore_legal_data_engine.Prelude.Result.{Result, ok, err}
use tore_legal_data_engine.Corpus.Store.{
  Store, Action, ◌>>=◌, after, lift, transaction, rolled_back,
}

abbrev pub Leaves : {A : Type 0} → Action A → Type 0
Leaves m = (s : Store) → (m s).1.jobs ≡ s.jobs

abbrev pub SameJobs : Store → Store → Type 0
SameJobs t s = t.jobs ≡ s.jobs

module _ {A B : Type 0} where
  pub leaving-bind :
      (m : Action A) (f : A → Action B) (s t : Store) (r : Result B)
      → (m >>= f) s ≡ (r, t)
      → Leaves m
      → ((a : A) (u : Store) → f a u ≡ (r, t) → SameJobs t u)
      → SameJobs t s
  leaving-bind m f s t r h leaves rest = go (m s) h (leaves s)
    where
      go : (o : Result A × Store) → after o f ≡ (r, t) → SameJobs o.1 s → SameJobs t s
      go (ok a, u) k e = rest a u k ∙ e
      go (err x, u) k e = sym (ap (λ o. o.1.jobs) k) ∙ e

  pub leaving-lift :
      (m : Result A) (f : A → Action B) (s t : Store) (r : Result B)
      → (lift m >>= f) s ≡ (r, t)
      → ((a : A) → f a s ≡ (r, t) → SameJobs t s)
      → SameJobs t s
  leaving-lift (ok a) f s t r h rest = rest a h
  leaving-lift (err x) f s t r h rest = sym (ap (λ o. o.1.jobs) h)

pub Leaves-of_runs :
    {A : Type 0} (m : Action A)
    → ((s t : Store) (r : Result A) → m s ≡ (r, t) → SameJobs t s)
    → Leaves m
Leaves-of_runs m f s = f s (m s).1 (m s).0 refl

-- An action that writes no job, run.
pub left :
    {A : Type 0} (m : Action A) (s t : Store) (r : Result A)
    → Leaves m
    → m s ≡ (r, t)
    → SameJobs t s
left m s t r leaves h = sym (ap (λ o. o.1.jobs) h) ∙ leaves s

pub transaction-Leaves : {A : Type 0} (m : Action A) → Leaves m → Leaves (transaction m)
unfolding transaction
transaction-Leaves {A} m leaves s = go (m s) (leaves s)
  where
    go : (o : Result A × Store) → SameJobs o.1 s → SameJobs (rolled_back s o).1 s
    go (ok a, t) e = e
    go (err x, t) e = refl
