-- ===== src/Examples/Running.antt =====
-- A run over one act.
use tore_legal_data_engine.Prelude.{none, some, [], ◌∷◌, false, ◌≡◌, refl}
use tore_legal_data_engine.Prelude.Result.{ok}
use tore_legal_data_engine.Corpus.Jobs.{find_job}
use tore_legal_data_engine.Ingest.Run.{DiscoveredAct, run}
use tore_legal_data_engine.Ingest.Run.Settled.{IsSettled, run-IsSettled}
use tore_legal_data_engine.Examples.Fixtures.{clock, fresh, empty_store}
use tore_legal_data_engine.Examples.Ingesting.{page, latin, digest, read_law, address}

abbrev act : DiscoveredAct
act = record { canonical_url = address; law_id = some "1" }

no_jobs : find_job (fresh 0) [] ≡ none
unfolding find_job
no_jobs = refl

run-IsSettled_example :
    IsSettled clock fresh "parser-1" "20" page latin digest read_law
      (fresh 0)
      none
      (ok (act ∷ []))
      (run clock fresh "parser-1" "20" page latin digest read_law none false
        (ok (act ∷ []))
        empty_store)
run-IsSettled_example =
    run-IsSettled clock fresh "parser-1" "20" page latin digest read_law none false (ok (act ∷ []))
      empty_store no_jobs
