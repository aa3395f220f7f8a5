-- ===== src/Examples/Fetching.antt =====
-- A download that is redirected once.
use tore_legal_data_engine.Prelude.{
  ℕ, ◌+◌, ◌*◌, ◌≤◌, suc, String, Option, none, some, List, [], ◌∷◌, Bool, true, false, refl, length,
  is_empty, ◌≡◌, if◌then◌else◌, ◌==◌,
}
use tore_legal_data_engine.Prelude.Result.{Result, ok}
use tore_legal_data_engine.Net.Url.{Url}
use tore_legal_data_engine.Prelude.Text.{trim}
use tore_legal_data_engine.Regex.{test, search_text}
use tore_legal_data_engine.Net.Addresses.{is_blocked_ip, ipv4_private, ipv6_private, mapped_re}
use tore_legal_data_engine.Net.Addresses.Blocked.{is_private}
use tore_legal_data_engine.Net.Backoff.{backoff_ms, doubled, backoff_ms-doubled}
use tore_legal_data_engine.Net.Downloader.{Fetch, Trace, Response, Outcome, download}
use tore_legal_data_engine.Net.Downloader.Bounded.{download_request_bounds}

abbrev page_url : Url
page_url = record {
  protocol = "https:";
  username = "";
  password = "";
  hostname = "legalinfo.mn";
  rest = "/mn/detail?lawId=1";
  hash = "";
}

abbrev parse_url : String → Option Url
parse_url raw = if raw == "https://legalinfo.mn/mn/detail?lawId=1" then some page_url else none

abbrev to_string : Url → String
to_string u = "https://legalinfo.mn/mn/detail?lawId=1"

abbrev resolve : Url → String → Option Url
resolve base location = some page_url

abbrev is_ip : String → Bool
is_ip host = false

abbrev resolve_host : Trace → String → List String
resolve_host past host = "202.131.4.10" ∷ []

abbrev decode : List ℕ → String
decode bytes = "<html>"

abbrev answer_with : ℕ → Response
answer_with status = record {
  status = status;
  location = some "/mn/detail?lawId=1";
  content_type = some "text/html";
  content_length = none;
  body = (60 ∷ 104 ∷ []) ∷ [];
}

abbrev fetch : Trace → Url → Result Response
fetch past u = ok (answer_with (if is_empty past then 302 else 200))

abbrev fetched : Outcome
fetched =
    download parse_url to_string resolve is_ip resolve_host decode fetch 1 100
      "https://legalinfo.mn/mn/detail?lawId=1" []

download_request_bounds_example : length fetched.1 ≤ length {A = Fetch} [] + suc 1 * 6
download_request_bounds_example =
    download_request_bounds parse_url to_string resolve is_ip resolve_host decode fetch 1 100
      "https://legalinfo.mn/mn/detail?lawId=1" []

backoff_ms-doubled_example : backoff_ms (suc 3) ≡ doubled 3
backoff_ms-doubled_example = backoff_ms-doubled 3

addresses_lem :
    (is_private "127.0.0.1" ≡ true)
    × (is_private "172.20.0.1" ≡ true)
    × (is_private "fd00::1" ≡ true)
    × (is_private "202.131.4.10" ≡ false)
    × (is_private "172.32.0.1" ≡ false)
    × (is_private "2001:db8::1" ≡ false)
unfolding is_private
addresses_lem = (refl, refl, refl, refl, refl, refl)

-- The loopback address, mapped into IPv6 in its hexadecimal form.
mapped_loopback : is_blocked_ip "::ffff:7f00:1" ≡ false
unfolding is_blocked_ip trim test search_text ipv4_private ipv6_private mapped_re
mapped_loopback = refl
