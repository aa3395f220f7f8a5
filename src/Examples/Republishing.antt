-- ===== src/Examples/Republishing.antt =====
-- An archived file is republished.
use tore_legal_data_engine.Prelude.{ℕ, String, Option, none, some, List, [], ◌∷◌, false}
use tore_legal_data_engine.Prelude.Result.{Result}
use tore_legal_data_engine.Corpus.Store.{Store}
use tore_legal_data_engine.Ingest.Run.{RunResult}
use tore_legal_data_engine.Ingest.Republish.{RepublishOptions, republish_from_archive}
use tore_legal_data_engine.Examples.Fixtures.{clock, fresh, empty_store}
use tore_legal_data_engine.Examples.Ingesting.{latin, digest, read_law, address}

abbrev options : RepublishOptions
options = record {
  dry_run = false;
  url = none;
  law_id = some "1";
  from_archive = some "some";
  retrieved_at = none;
  expected_shape = none;
}

abbrev archive : Store
archive = record empty_store {
  archives =
      record {
        archive_id = "arc_some";
        sha256 = "some";
        original_url = address;
        retrieved_at = "10";
        mime_type = "text/html";
        original_file_name = "1.html";
        bytes = 60 ∷ 104 ∷ [];
      }
      ∷ [];
}

abbrev law_id_from_url : String → Option String
law_id_from_url url = some "1"

abbrev nothing_else : String → Option (List ℕ)
nothing_else hash = none

abbrev again : Result RunResult × Store
again =
    republish_from_archive clock fresh "legalinfo-html-v2" "20" latin digest read_law
      law_id_from_url nothing_else options (some "some") archive
