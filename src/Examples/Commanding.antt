-- ===== src/Examples/Commanding.antt =====
-- A command line.
use tore_legal_data_engine.Prelude.{String, List, [], ◌∷◌, false, ◌≡◌, ◌⊎◌, refl}
use tore_legal_data_engine.Prelude.Maps.{get, set}
use tore_legal_data_engine.Ingest.Cli.{IngestCliOptions, parse_ingest_cli_args}
use tore_legal_data_engine.Ingest.Cli.Flags.{Gives}
use tore_legal_data_engine.Ingest.Cli.Limits.{parse_ingest_cli_args-publishes}

abbrev command : List String
command = "--law-id" ∷ "299, 300" ∷ "--limit=7" ∷ "--publish" ∷ "true" ∷ []

abbrev chosen : IngestCliOptions
chosen = parse_ingest_cli_args command 5

no_dry_run : chosen.dry_run ≡ false
unfolding parse_ingest_cli_args get set
no_dry_run = refl

parse_ingest_cli_args-publishes_example :
    Gives "publish" "true" command ⊎ Gives "dry-run" "false" command
parse_ingest_cli_args-publishes_example = parse_ingest_cli_args-publishes command 5 no_dry_run
