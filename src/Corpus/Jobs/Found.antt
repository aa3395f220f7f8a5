-- ===== src/Corpus/Jobs/Found.antt =====
-- The row of a job after it is created and changed.
use tore_legal_data_engine.Prelude.{
  String, none, some, List, [], ◌∷◌, ◌++◌, true, ◌≡◌, refl, arith, ◌==◌, Bool-cases, inl, inr, ap,
  ◌∙◌,
}
use tore_legal_data_engine.Prelude.Result.{ok}
use tore_legal_data_engine.Domain.Entities.{IngestJob}
use tore_legal_data_engine.Corpus.Store.{Store}
use tore_legal_data_engine.Corpus.Jobs.{find_job, update_job, change_job}

pub find_job-append :
    (id : String) (jobs : List IngestJob) (j : IngestJob)
    → find_job id jobs ≡ none
    → (j.id == id) ≡ true
    → find_job id (jobs ++ j ∷ []) ≡ some j
unfolding find_job
find_job-append id [] j h e = rw e refl
find_job-append id (k ∷ jobs) j h e = ground (arith, find_job-append id jobs j)

pub find_job-update_job :
    (change : IngestJob → IngestJob) (id : String) (jobs : List IngestJob) (j : IngestJob)
    → ((k : IngestJob) → (change k).id ≡ k.id)
    → find_job id jobs ≡ some j
    → find_job id (update_job change id jobs) ≡ some (change j)
unfolding find_job update_job
find_job-update_job change id [] j same h = cc
find_job-update_job change id (k ∷ jobs) j same h = elim (Bool-cases (k.id == id)) [
  | inl e ↦
      let first : k ≡ j = ground arith in
      let named : ((change k).id == id) ≡ true = ap (λ n. n == id) (same k) ∙ e in
      rw (e, named) (ap (λ x. some (change x)) first)
  | inr e ↦ rw (e, e) (find_job-update_job change id jobs j same (ground arith))
]

-- A job that is there is changed.
pub change_job-found :
    (change : IngestJob → IngestJob) (id : String) (j : IngestJob) (s : Store)
    → ((k : IngestJob) → (change k).id ≡ k.id)
    → find_job id s.jobs ≡ some j
    → (change_job change id s ≡ (ok tt, record s { jobs = update_job change id s.jobs }))
      × (find_job id (update_job change id s.jobs) ≡ some (change j))
unfolding change_job
change_job-found change id j s same h = (rw h refl, find_job-update_job change id s.jobs j same h)
