-- ===== src/Ingest/Cli/Limits.antt =====
-- What a command line can ask for.
use tore_legal_data_engine.Prelude.{
  ℕ, String, some, List, false, ◌≡◌, ◌⊎◌, inl, inr, arith, same_opt, same_opt_iff, Bool-cases,
}
use tore_legal_data_engine.Prelude.Maps.{get}
use tore_legal_data_engine.Ingest.Cli.Flags.{Gives, parse_flags-Gives}
use tore_legal_data_engine.Ingest.Cli.{parse_ingest_cli_args, parse_flags, wants_dry_run}

-- A command that is no dry run says so: among its arguments `publish` is given the value "true", or
-- `dry-run` the value "false". An argument gives a value as `--key=value`, as `--key` before the value,
-- or, for "true", as `--key` at the end or before an argument that is empty or begins with `--`.
pub parse_ingest_cli_args-publishes :
    (argv : List String) (max_documents : ℕ)
    → (parse_ingest_cli_args argv max_documents).dry_run ≡ false
    → Gives "publish" "true" argv ⊎ Gives "dry-run" "false" argv
unfolding parse_ingest_cli_args wants_dry_run
parse_ingest_cli_args-publishes argv max_documents h =
    elim (Bool-cases (same_opt (get "publish" (parse_flags argv)) (some "true"))) [
      | inl e ↦ inl (
          parse_flags-Gives "publish" "true" argv
            ((same_opt_iff (get "publish" (parse_flags argv)) (some "true")).0 e))
      | inr e ↦ inr (
          parse_flags-Gives "dry-run" "false" argv
            ((same_opt_iff (get "dry-run" (parse_flags argv)) (some "false")).0 (ground arith)))
    ]
