-- ===== src/Examples/Browsing.antt =====
-- A page of LegalInfo that redirects to a file on a host below it.
use tore_legal_data_engine.Prelude.{
  String, Option, none, some, List, [], ◌∷◌, Bool, true, false, ◌≡◌, refl, All, is_empty,
  if◌then◌else◌, length,
}
use tore_legal_data_engine.Net.Url.{Url}
use tore_legal_data_engine.Scraper.Retry.{Attempt, failed, unsafe_redirect}
use tore_legal_data_engine.Scraper.Requests.{
  Request, Answer, BinaryHttpResponse, request_bytes, allowed_redirect_host, resolve_safe_redirect,
}
use tore_legal_data_engine.Scraper.Requests.Origin.{IsProper, request_bytes-IsProper}

abbrev url_on : String → Url
url_on host = record {
  protocol = "https:";
  username = "";
  password = "";
  hostname = host;
  rest = "/file.pdf";
  hash = "#top";
}

abbrev page : Url
page = url_on "legalinfo.mn"

abbrev to_storage : Url → String → Option Url
to_storage base location = some (url_on location)

abbrev robots : Url → Bool
robots u = true

abbrev moved_to : String → List Request → Request → Option Answer
moved_to host past r =
    some (record {
      status = if is_empty past then 302 else 200;
      location = some host;
      bytes = 37 ∷ [];
    })

abbrev post : Request
post = record { url = page; method = "POST"; body = some "lawId=1" }

abbrev requested : String → Option (Attempt BinaryHttpResponse) × List Request
requested host = request_bytes to_storage robots (moved_to host) "legalinfo.mn" false 3 post []

two_requests : length (requested "storage.legalinfo.mn").1 ≡ 2
unfolding request_bytes
two_requests = refl

off_origin : (requested "evil.example").0 ≡ some (failed unsafe_redirect)
unfolding request_bytes
off_origin = refl

allowed_hosts :
    (allowed_redirect_host "storage.legalinfo.mn" "legalinfo.mn" ≡ true)
    × (allowed_redirect_host "Legalinfo.mn." "legalinfo.mn" ≡ true)
    × (allowed_redirect_host "evil-legalinfo.mn" "legalinfo.mn" ≡ false)
unfolding allowed_redirect_host
allowed_hosts = (refl, refl, refl)

no_location : resolve_safe_redirect to_storage "legalinfo.mn" page none ≡ none
unfolding resolve_safe_redirect
no_location = refl

request_bytes-IsProper_example :
    All
      (IsProper to_storage robots (moved_to "storage.legalinfo.mn") "legalinfo.mn" false page)
      (requested "storage.legalinfo.mn").1
request_bytes-IsProper_example =
    request_bytes-IsProper to_storage robots (moved_to "storage.legalinfo.mn") "legalinfo.mn" false
      page 3 post [] refl tt
