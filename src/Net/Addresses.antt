-- ===== src/Net/Addresses.antt =====
-- src/infrastructure/http/ssrf.ts: addresses that may not be fetched from.
pub mod Ranges
pub mod Blocked
use tore_legal_data_engine.Prelude.{
  ℕ, String, Option, none, some, List, [], ◌∷◌, Bool, ◌&&◌, if◌then◌else◌, leb, is_empty,
}
use tore_legal_data_engine.Prelude.Text.{◌<>◌, trim}
use tore_legal_data_engine.Prelude.Result.{Result, ok, ◌>>◌}
use tore_legal_data_engine.Regex.{
  Regex, one_of, at_start, at_end, seq, alt, group, digit, plus, lit, lit_i, test, search_text,
  captured,
}
use tore_legal_data_engine.Net.Url.{deny_if}

abbrev in_range : ℕ → ℕ → Regex
in_range a b = one_of (λ x. leb a x && leb x b)

-- `IPV4_PRIVATE`, in its order
abbrev private_10 : Regex
private_10 = alt (lit "0.") (alt (lit "10.") (alt (lit "127.") (lit "169.254.")))

-- `/^172\.(1[6-9]|2\d|3[0-1])\./`
abbrev private_172 : Regex
private_172 = seq (lit "172.") (
    seq
      (alt (seq (lit "1") (in_range b'6' b'9'))
        (alt (seq (lit "2") digit) (seq (lit "3") (in_range b'0' b'1'))))
      (lit "."))

-- `/^100\.(6[4-9]|[7-9]\d|1[0-2]\d)\./`
abbrev private_100 : Regex
private_100 = seq (lit "100.") (
    seq
      (alt (seq (lit "6") (in_range b'4' b'9'))
        (alt (seq (in_range b'7' b'9') digit) (seq (lit "1") (seq (in_range b'0' b'2') digit))))
      (lit "."))

abbrev any_private : Regex
any_private =
    alt private_10 (
      alt private_172
        (alt (lit "192.168.") (alt private_100 (alt (lit "198.18.") (lit "198.19.")))))

unfoldable pub ipv4_private : Regex
ipv4_private = seq at_start any_private

-- `/^::ffff:(\d+\.\d+\.\d+\.\d+)$/` on a text in lower case
unfoldable pub mapped_re : Regex
mapped_re = seq at_start (
    seq (lit_i "::ffff:") (
      seq
        (group 1 (
          seq (plus digit) (
            seq (lit ".")
              (seq (plus digit) (seq (lit ".") (seq (plus digit) (seq (lit ".") (plus digit))))))))
        at_end))

-- `ip === "::1" || … || ip.startsWith("ff")` on a text in lower case
unfoldable pub ipv6_private : Regex
ipv6_private = seq at_start (
    alt (seq (alt (lit "::1") (lit "::")) at_end)
      (alt (lit_i "fc") (alt (lit_i "fd") (alt (lit_i "fe80") (lit_i "ff")))))

abbrev pub has_colon : String → Bool
has_colon ip = test (lit ":") ip

abbrev pub mapped_of : Option (List (ℕ × String)) → Option String
mapped_of none = none
mapped_of (some c) = captured 1 c

-- The address that a mapped one stands for has no colon, so the recursive call takes the last branch.
unfoldable pub is_blocked_ip : String → Bool
is_blocked_ip address =
    let ip = trim address in
    if has_colon ip
    then elim (mapped_of (search_text mapped_re ip)) [
      | some v4 ↦ test ipv4_private v4
      | none ↦ test ipv6_private ip
    ]
    else test ipv4_private ip

-- The loop over the addresses.
unfoldable pub all_public : String → List String → Result (Unit {0})
all_public hostname [] = ok tt
all_public hostname (a ∷ rest) = do
  deny_if (is_blocked_ip a) "ssrf_blocked"
      ("Host " <> hostname <> " resolved to a private or local address")
  all_public hostname rest

module _ (is_ip : String → Bool) where
  unfoldable pub assert_public_resolved_addresses : String → List String → Result (Unit {0})
  unfolding all_public
  assert_public_resolved_addresses hostname addresses = do
    deny_if (is_ip hostname && is_blocked_ip hostname) "ssrf_blocked"
        ("Blocked IP host " <> hostname)
    deny_if (is_empty addresses) "ssrf_blocked" ("Could not resolve " <> hostname)
    all_public hostname addresses
