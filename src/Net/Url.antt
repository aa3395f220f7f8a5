-- ===== src/Net/Url.antt =====
-- src/infrastructure/http/allowlist.ts. A URL is taken apart by the platform (`new URL`), which is a
-- parameter; what the checks read of it are the fields of a record.
use Prim.Native.Char.{code}
use Prim.Native.String.{[], ◌∷◌}
use tore_legal_data_engine.Prelude.{
  String, Option, none, some, Bool, true, false, not, ◌||◌, if◌then◌else◌, eqb, ◌==◌,
}
use tore_legal_data_engine.Prelude.Text.{◌<>◌}
use tore_legal_data_engine.Prelude.Result.{DomainError, Result, ok, err, ◌>>◌}
use tore_legal_data_engine.Domain.SourceDocument.{same_text}

-- The parts of a `URL`; `rest` is its port, path and query.
pub record Url : Type 0 where
  pub protocol : String
  pub username : String
  pub password : String
  pub hostname : String
  pub rest : String
  pub hash : String

-- `new IngestError(code, message)`
abbrev pub ingest_error : String → String → DomainError
ingest_error code message = record { code = code; message = message }

-- `if (bad) throw new IngestError(code, message)`
abbrev pub deny_if : Bool → String → String → Result (Unit {0})
deny_if true code message = err (ingest_error code message)
deny_if false code message = ok tt

-- `hostname.replace(/\.$/, "")`
unfoldable pub without_final_dot : String → String
without_final_dot [] = []
without_final_dot (c ∷ []) = if eqb (code c) b'.' then [] else c ∷ []
without_final_dot (c ∷ d ∷ s) = c ∷ without_final_dot (d ∷ s)

-- `text.toLowerCase().endsWith(pattern)`
unfoldable pub ends_with : String → String → Bool
ends_with pattern [] = same_text pattern []
ends_with pattern (c ∷ s) = same_text pattern (c ∷ s) || ends_with pattern s

unfoldable pub is_legal_info_host : String → Bool
unfolding ends_with without_final_dot
is_legal_info_host hostname =
    let host = without_final_dot hostname in
    (same_text "legalinfo.mn" host || same_text "www.legalinfo.mn" host)
    || ends_with ".legalinfo.mn" host

abbrev pub has_credentials : Url → Bool
has_credentials u = not (u.username == "") || not (u.password == "")

-- The checks of `assertHttpsLegalInfoUrl` on a URL that was taken apart; the fragment is dropped.
unfoldable pub check_url : Url → Result Url
check_url u = do
  deny_if (not (u.protocol == "https:")) "https_only" "Only HTTPS URLs are allowed"
  deny_if (has_credentials u) "ssrf_blocked" "URLs with credentials are not allowed"
  deny_if (not (is_legal_info_host u.hostname)) "allowlist"
      ("Host " <> u.hostname <> " is not an allowed LegalInfo host")
  ok (record u { hash = "" })

module _ (parse_url : String → Option Url) where
  unfoldable pub assert_https_legal_info_url : String → Result Url
  assert_https_legal_info_url raw = elim (parse_url raw) [
    | none ↦ err (ingest_error "invalid_url" ("Not a valid URL: " <> raw))
    | some u ↦ check_url u
  ]
