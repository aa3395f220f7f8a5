-- ===== src/Ingest/Run.antt =====
-- `run` of src/application/ingest/ingest-legalinfo.service.ts: a job that ingests what the connector
-- discovers, one act after the other. The log and the metadata of the job are left out.
pub mod Leaving
pub mod Settled
use tore_legal_data_engine.Prelude.{
  ℕ, suc, ◌+◌, String, Option, none, some, List, [], ◌∷◌, ◌++◌, Bool, true, false, or_else,
}
use tore_legal_data_engine.Prelude.Int.{ℤ}
use tore_legal_data_engine.Prelude.Result.{DomainError, Result, ok, err}
use tore_legal_data_engine.Domain.Enums.{IngestJobType}
use tore_legal_data_engine.Domain.Entities.{LegalDocument}
use tore_legal_data_engine.Corpus.Store.{Store, Action, ◌>>=◌, ◌>>◌, pure, lift, after}
use tore_legal_data_engine.Corpus.Repositories.{log_audit}
use tore_legal_data_engine.Corpus.Jobs.{create_job, mark_running, mark_succeeded, mark_failed}
use tore_legal_data_engine.Ingest.Request.{
  source_id, actor, Outcome, published, unchanged, ensure_source,
}
use tore_legal_data_engine.Ingest.One.{
  IngestItem, ItemOutcome, review, ready, done, Downloaded, ingest_one,
}

pub record DiscoveredAct : Type 0 where
  pub canonical_url : String
  pub law_id : Option String

-- `IngestRunResult`
pub record RunResult : Type 0 where
  pub dry_run : Bool
  pub processed : ℕ
  pub published : ℕ
  pub unchanged : ℕ
  pub reviews : ℕ
  pub failures : ℕ
  pub job_id : String
  pub documents : List IngestItem

abbrev pub empty_result : Bool → String → RunResult
empty_result dry_run job = record {
  dry_run = dry_run;
  processed = 0;
  published = 0;
  unchanged = 0;
  reviews = 0;
  failures = 0;
  job_id = job;
  documents = [];
}

-- The counter of an outcome; one that stops before publication has none.
unfoldable pub count_outcome : ItemOutcome → RunResult → RunResult
count_outcome (done published) r = record r { published = r.published + 1 }
count_outcome (done unchanged) r = record r { unchanged = r.unchanged + 1 }
count_outcome review r = record r { reviews = r.reviews + 1 }
count_outcome ready r = r

unfoldable pub count_item : RunResult → IngestItem → RunResult
unfolding count_outcome
count_item r item =
    let counted = count_outcome item.outcome (record r { processed = r.processed + 1 }) in
    record counted { documents = counted.documents ++ item ∷ [] }

abbrev pub count_failure : RunResult → RunResult
count_failure r = record r { failures = r.failures + 1; processed = r.processed + 1 }

-- What a round of the loop makes of the outcome of an act: an error is counted and audited.
unfoldable pub tally :
    DiscoveredAct → RunResult → Result IngestItem × Store → Result RunResult × Store
unfolding count_item
tally act r (ok item, s) = (ok (count_item r item), s)
tally act r (err e, s) =
    after
      (log_audit
        (record {
          actor = actor;
          action = "ingest.failed";
          entity_type = "DiscoveredAct";
          entity_id = act.law_id;
        })
        s)
      (λ u. pure (count_failure r))

-- The catch of `run`; the error of `markFailed` itself, if there is one, takes its place.
abbrev pub rethrow : DomainError → Result (Unit {0}) × Store → Result RunResult × Store
rethrow e (ok u, s) = (err e, s)
rethrow e (err f, s) = (err f, s)

unfoldable pub fail_run : String → DomainError → Store → Result RunResult × Store
fail_run job e s = rethrow e (mark_failed job e.message s)

unfoldable pub after_success :
    String → RunResult → Result (Unit {0}) × Store → Result RunResult × Store
unfolding fail_run
after_success job r (ok u, s) = (ok r, s)
after_success job r (err e, s) = fail_run job e s

unfoldable pub settle : String → Result RunResult × Store → Result RunResult × Store
unfolding after_success fail_run
settle job (ok r, s) = after_success job r (mark_succeeded job s)
settle job (err e, s) = fail_run job e s

module _ (parse_date : String → Option ℤ) (uuid : ℕ → String) (parser_id now : String)
    (download : String → Result Downloaded) (decode : List ℕ → String) (sha256 : List ℕ → String)
    (parse : String → List ℕ → String → String → Result LegalDocument) where
  -- The loop over the discovered acts.
  unfoldable pub run_acts : Bool → String → List DiscoveredAct → RunResult → Action RunResult
  unfolding tally
  run_acts dry_run job [] r s = (ok r, s)
  run_acts dry_run job (act ∷ rest) r s =
      after
        (tally act r (
          ingest_one parse_date uuid parser_id now download decode sha256 parse act.canonical_url
            act.law_id dry_run job s))
        (λ next. run_acts dry_run job rest next)

  -- The body of the try.
  unfoldable pub run_body : Bool → String → Result (List DiscoveredAct) → Action RunResult
  unfolding run_acts
  run_body dry_run job (err e) s = (err e, s)
  run_body dry_run job (ok acts) s = run_acts dry_run job acts (empty_result dry_run job) s

  unfoldable pub run_job : Bool → Result (List DiscoveredAct) → String → Action RunResult
  unfolding run_body settle
  run_job dry_run discovered job s = settle job (run_body dry_run job discovered s)

  -- `run`; `discovered` is what the connector finds.
  unfoldable pub run : Option String → Bool → Result (List DiscoveredAct) → Action RunResult
  unfolding ensure_source create_job mark_running run_job
  run url dry_run discovered = do
    ensure_source
    job ← create_job uuid source_id IngestJobType.fetch url
    mark_running job
    run_job dry_run discovered job
