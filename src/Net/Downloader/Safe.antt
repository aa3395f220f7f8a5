-- ===== src/Net/Downloader/Safe.antt =====
-- Where the downloader sends requests.
use tore_legal_data_engine.Prelude.{ℕ, String, Option, List, Bool, true, false, ◌≡◌, is_empty, All}
use tore_legal_data_engine.Prelude.Result.{Result}
use tore_legal_data_engine.Net.Url.{Url, has_credentials, is_legal_info_host}
use tore_legal_data_engine.Net.Addresses.Blocked.{IsPublic}
use tore_legal_data_engine.Net.Downloader.{Fetch, Response, Trace, Outcome}

-- A request that may be sent: over HTTPS, without credentials, to a LegalInfo host that resolved to
-- an address at least, and to none that is private.
pub record IsSafe (f : Fetch) : Type 0 where
  pub https : f.url.protocol ≡ "https:"
  pub anonymous : has_credentials f.url ≡ false
  pub allowed : is_legal_info_host f.url.hostname ≡ true
  pub resolved : is_empty f.addresses ≡ false
  pub public_only : All IsPublic f.addresses

module _ (parse_url : String → Option Url) (to_string : Url → String)
    (resolve : Url → String → Option Url) (is_ip : String → Bool)
    (resolve_host : Trace → String → List String) (decode : List ℕ → String)
    (fetch : Trace → Url → Result Response) where
  abbrev Handler : Type 0
  Handler = Url → Response → Trace → Outcome

  abbrev KeepsSafe : Handler → Type 0
  KeepsSafe redirect =
      (from : Url) (r : Response) (t : Trace) → All IsSafe t → All IsSafe (redirect from r t).1
