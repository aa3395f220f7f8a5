-- ===== src/Ingest/Run/Settled.antt =====
-- How a run ends: what it counts, and what becomes of its job.
use tore_legal_data_engine.Prelude.{
  ℕ, ◌+◌, String, Option, none, some, List, [], ◌∷◌, ◌++◌, Bool, true, ◌≡◌, refl, arith, length,
  length-append, ap, ◌∙◌, eq_refl,
}
use tore_legal_data_engine.Prelude.Int.{ℤ}
use tore_legal_data_engine.Prelude.Result.{DomainError, Result, ok, err}
use tore_legal_data_engine.Domain.Enums.{fetch}
use tore_legal_data_engine.Domain.Entities.{LegalDocument, IngestJob}
use tore_legal_data_engine.Corpus.Store.{Store, Action, after}
use tore_legal_data_engine.Corpus.Jobs.{
  find_job, create_job, mark_running, mark_succeeded, mark_failed, new_job, as_running,
  as_succeeded, as_failed, update_job,
}
use tore_legal_data_engine.Corpus.Jobs.Leaving.{SameJobs}
use tore_legal_data_engine.Corpus.Jobs.Found.{find_job-append, change_job-found}
use tore_legal_data_engine.Ingest.Request.{source_id, ensure_source}
use tore_legal_data_engine.Ingest.One.{
  IngestItem, ItemOutcome, review, ready, done, Downloaded, ingest_one,
}
use tore_legal_data_engine.Ingest.Run.{
  DiscoveredAct, RunResult, empty_result, count_item, count_outcome, tally, run_acts, run_body,
  run_job, run, settle, after_success, fail_run, rethrow,
}
use tore_legal_data_engine.Ingest.Run.Leaving.{ingest_one-Leaves}

abbrev stopped : ItemOutcome → ℕ
stopped ready = 1
stopped review = 0
stopped (done o) = 0

-- How many items stopped before their publication.
abbrev pub stopped_count : List IngestItem → ℕ
stopped_count [] = 0
stopped_count (i ∷ items) = stopped i.outcome + stopped_count items

-- The counters agree: every act is counted as what became of it, and has an item unless it failed.
pub record IsAccounted (acts : ℕ) (r : RunResult) : Type 0 where
  pub all : r.processed ≡ acts
  pub outcomes :
      r.processed
      ≡ r.published + (r.unchanged + (r.reviews + (r.failures + stopped_count r.documents)))
  pub items : r.processed ≡ length r.documents + r.failures

stopped_count-append :
    (xs ys : List IngestItem) → stopped_count (xs ++ ys) ≡ stopped_count xs + stopped_count ys
stopped_count-append [] ys = omega arith
stopped_count-append (x ∷ xs) ys = omega (arith, stopped_count-append xs ys)

count_item-IsAccounted :
    (n : ℕ) (r : RunResult) (item : IngestItem)
    → IsAccounted n r
    → IsAccounted (n + 1) (count_item r item)
unfolding count_item count_outcome
count_item-IsAccounted n r item a =
    ground
      (arith, length-append r.documents (item ∷ []), stopped_count-append r.documents (item ∷ []))

count_item-job : (r : RunResult) (item : IngestItem) → (count_item r item).job_id ≡ r.job_id
unfolding count_item count_outcome
count_item-job r item = ground arith

-- The outcome of the loop: it never fails, and writes no job.
abbrev Ran : ℕ → String → Store → Result RunResult × Store → Type 0
Ran n job s (err e, t) = ⊥
Ran n job s (ok r, t) = IsAccounted n r × (r.job_id ≡ job) × SameJobs t s

tally-Ran :
    (n : ℕ) (job : String) (act : DiscoveredAct) (r : RunResult) (s : Store)
    (o : Result IngestItem × Store)
    → IsAccounted n r
    → r.job_id ≡ job
    → SameJobs o.1 s
    → Ran (n + 1) job s (tally act r o)
unfolding tally
tally-Ran n job act r s (ok item, t) a j e =
    (count_item-IsAccounted n r item a, count_item-job r item ∙ j, e)
tally-Ran n job act r s (err x, t) a j e = (
  record {
    all = omega (arith, a.all);
    outcomes = omega (arith, a.outcomes);
    items = omega (arith, a.items);
  },
  j,
  e,
)

-- After a step of the loop, the rest of it.
after-Ran :
    (m k : ℕ) (job : String) (s : Store) (o : Result RunResult × Store)
    (rest : RunResult → Action RunResult)
    → Ran m job s o
    → ((r : RunResult) (t : Store) → IsAccounted m r → r.job_id ≡ job → Ran k job t (rest r t))
    → Ran k job s (after o rest)
after-Ran m k job s (err e, t) rest h then = absurd h
after-Ran m k job s (ok r, t) rest (a, j, e) then = along (rest r t) (then r t a j)
  where
    along : (o : Result RunResult × Store) → Ran k job t o → Ran k job s o
    along (err x, u) h = h
    along (ok last, u) (b, l, f) = (b, l, f ∙ e)

resumed :
    (n : ℕ) (job : String) (s : Store) (o : Result RunResult × Store) {m : ℕ}
    → Ran m job s o
    → m ≡ n
    → Ran n job s o
resumed n job s (err x, t) h e = h
resumed n job s (ok r, t) (a, j, f) e =
    (record { all = omega (arith, a.all, e); outcomes = a.outcomes; items = a.items }, j, f)

module _ (parse_date : String → Option ℤ) (uuid : ℕ → String) (parser_id now : String)
    (download : String → Result Downloaded) (decode : List ℕ → String) (sha256 : List ℕ → String)
    (parse : String → List ℕ → String → String → Result LegalDocument) where
  run_acts-Ran :
      (dry_run : Bool) (job : String) (acts : List DiscoveredAct) (n : ℕ) (r : RunResult)
      (s : Store)
      → IsAccounted n r
      → r.job_id ≡ job
      → Ran
          (n + length acts)
          job
          s
          (run_acts parse_date uuid parser_id now download decode sha256 parse dry_run job acts r s)
  unfolding run_acts
  run_acts-Ran dry_run job [] n r s a j =
      (record { all = omega (arith, a.all); outcomes = a.outcomes; items = a.items }, j, refl)
  run_acts-Ran dry_run job (act ∷ rest) n r s a j =
      let o =
        ingest_one parse_date uuid parser_id now download decode sha256 parse act.canonical_url
          act.law_id dry_run job s in
      resumed (n + length (act ∷ rest)) job s
        (after (tally act r o) (λ next.
          run_acts parse_date uuid parser_id now download decode sha256 parse dry_run job rest
            next))
        (after-Ran (n + 1) (n + 1 + length rest) job s (tally act r o)
          (λ next.
            run_acts parse_date uuid parser_id now download decode sha256 parse dry_run job rest
              next)
          (tally-Ran n job act r s o a j (
            ingest_one-Leaves parse_date uuid parser_id now download decode sha256 parse
              act.canonical_url act.law_id dry_run job s))
          (λ next t b k. run_acts-Ran dry_run job rest (n + 1) next t b k))
        (omega arith)

  abbrev started : String → Option String → IngestJob
  started job url = as_running (new_job job source_id fetch url)

  -- How a run ends. It succeeds if the acts could be discovered, has then counted each, and its job
  -- has succeeded; otherwise the job has failed, with the error's message and a retry counted.
  abbrev pub IsSettled :
      String → Option String → Result (List DiscoveredAct) → Result RunResult × Store → Type 0
  IsSettled job url discovered (ok r, t) =
      (acts : List DiscoveredAct) × (discovered ≡ ok acts)
      × IsAccounted (length acts) r
      × (r.job_id ≡ job)
      × (find_job job t.jobs ≡ some (as_succeeded (started job url)))
  IsSettled job url discovered (err e, t) =
      (discovered ≡ err e) × (find_job job t.jobs ≡ some (as_failed e.message (started job url)))

  settle-ok :
      (job : String) (url : Option String) (acts : List DiscoveredAct) (s : Store)
      (o : Result RunResult × Store)
      → find_job job s.jobs ≡ some (started job url)
      → Ran (length acts) job s o
      → IsSettled job url (ok acts) (settle job o)
  unfolding settle mark_succeeded after_success
  settle-ok job url acts s (err e, t) h b = absurd b
  settle-ok job url acts s (ok r, t) h (a, j, e) =
      let here : find_job job t.jobs ≡ some (started job url) = ap (find_job job) e ∙ h in
      let (runs, found) = change_job-found as_succeeded job (started job url) t (λ k. refl) here in
      rw (runs, after_success) (acts, refl, a, j, found)

  fail_run-IsSettled :
      (job : String) (url : Option String) (e : DomainError) (s : Store)
      → find_job job s.jobs ≡ some (started job url)
      → IsSettled job url (err e) (fail_run job e s)
  unfolding fail_run mark_failed
  fail_run-IsSettled job url e s h =
      let (runs, found) =
        change_job-found (as_failed e.message) job (started job url) s (λ k. refl) h in
      rw (runs, rethrow) (refl, found)

  run_job-IsSettled :
      (dry_run : Bool) (url : Option String) (discovered : Result (List DiscoveredAct))
      (job : String) (s : Store)
      → find_job job s.jobs ≡ some (started job url)
      → IsSettled job url discovered (
          run_job parse_date uuid parser_id now download decode sha256 parse dry_run discovered job
            s)
  unfolding run_job run_body settle
  run_job-IsSettled dry_run url (err e) job s h = fail_run-IsSettled job url e s h
  run_job-IsSettled dry_run url (ok acts) job s h =
      settle-ok job url acts s
        (run_acts parse_date uuid parser_id now download decode sha256 parse dry_run job acts
          (empty_result dry_run job) s)
        h
        (resumed (length acts) job s
          (run_acts parse_date uuid parser_id now download decode sha256 parse dry_run job acts
            (empty_result dry_run job) s)
          (run_acts-Ran dry_run job acts 0 (empty_result dry_run job) s
            (record { all = refl; outcomes = omega arith; items = omega arith }) refl)
          (omega arith))

  -- Where no job has the next identifier, a run comes to an end with its job settled. Unless the
  -- connector fails to discover the acts, it succeeds, whatever becomes of the acts: each is counted
  -- as published, unchanged, in review, failed or stopped before publication, and its job has
  -- succeeded. Otherwise it throws the connector's error, and its job has failed with that message.
  pub run-IsSettled :
      (url : Option String) (dry_run : Bool) (discovered : Result (List DiscoveredAct)) (s : Store)
      → find_job (uuid s.next) s.jobs ≡ none
      → IsSettled
          (uuid s.next)
          url
          discovered
          (run parse_date uuid parser_id now download decode sha256 parse url dry_run discovered s)
  unfolding run ensure_source create_job mark_running
  run-IsSettled url dry_run discovered s fresh =
      let job = uuid s.next in
      let row = new_job job source_id fetch url in
      let created : Store = record s {
        source_known = true;
        jobs = s.jobs ++ row ∷ [];
        next = s.next + 1;
      } in
      let there = find_job-append job s.jobs row fresh (eq_refl job) in
      let (runs, found) = change_job-found as_running job row created (λ k. refl) there in
      rw (runs, after)
        (run_job-IsSettled dry_run url discovered job
          (record created { jobs = update_job as_running job created.jobs }) found)
