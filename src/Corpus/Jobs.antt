-- ===== src/Corpus/Jobs.antt =====
-- src/infrastructure/prisma/prisma-ingest-job.repository.ts. The times at which a job starts and ends and
-- its metadata are left out. The update of a row that is not there is an error.
pub mod Leaving
pub mod Found
use tore_legal_data_engine.Prelude.{
  ℕ, suc, ◌+◌, String, Option, none, some, List, [], ◌∷◌, ◌++◌, map, Bool, true, false,
  if◌then◌else◌, find_first, ◌==◌,
}
use tore_legal_data_engine.Prelude.Result.{DomainError, ok, err}
use tore_legal_data_engine.Domain.Enums.{IngestJobType, IngestJobStatus}
use tore_legal_data_engine.Domain.Entities.{IngestJob}
use tore_legal_data_engine.Corpus.Store.{Store, Action}

unfoldable pub find_job : String → List IngestJob → Option IngestJob
find_job id jobs = find_first (λ j. j.id == id) jobs

-- The row with the id is replaced.
unfoldable pub update_job : (IngestJob → IngestJob) → String → List IngestJob → List IngestJob
update_job change id [] = []
update_job change id (j ∷ rest) =
    if j.id == id then change j ∷ rest else j ∷ update_job change id rest

-- The error of an update that finds no row.
abbrev pub not_found : DomainError
not_found = record { code = "P2025"; message = "record not found" }

abbrev pub change_found : (IngestJob → IngestJob) → String → Option IngestJob → Action (Unit {0})
change_found change id none s = (err not_found, s)
change_found change id (some j) s = (ok tt, record s { jobs = update_job change id s.jobs })

unfoldable pub change_job : (IngestJob → IngestJob) → String → Action (Unit {0})
unfolding update_job
change_job change id s = change_found change id (find_job id s.jobs) s

abbrev pub as_running : IngestJob → IngestJob
as_running j = record j { status = IngestJobStatus.running; error = none }

abbrev pub as_succeeded : IngestJob → IngestJob
as_succeeded j = record j { status = IngestJobStatus.succeeded; error = none }

abbrev pub as_failed : String → IngestJob → IngestJob
as_failed message j = record j {
  status = IngestJobStatus.failed;
  error = some message;
  retry_count = j.retry_count + 1;
}

unfoldable pub mark_running : String → Action (Unit {0})
unfolding change_job
mark_running id = change_job as_running id

unfoldable pub mark_succeeded : String → Action (Unit {0})
unfolding change_job
mark_succeeded id = change_job as_succeeded id

unfoldable pub mark_failed : String → String → Action (Unit {0})
unfolding change_job
mark_failed id message = change_job (as_failed message) id

abbrev pub new_job : String → String → IngestJobType → Option String → IngestJob
new_job id source job_type url = record {
  id = id;
  source_id = source;
  job_type = job_type;
  status = IngestJobStatus.pending;
  url = url;
  error = none;
  retry_count = 0;
}

-- `create` with no id given; it returns the id.
unfoldable pub create_job : (ℕ → String) → String → IngestJobType → Option String → Action String
create_job uuid source job_type url s = (
  ok (uuid s.next),
  record s { jobs = s.jobs ++ new_job (uuid s.next) source job_type url ∷ []; next = s.next + 1 },
)
