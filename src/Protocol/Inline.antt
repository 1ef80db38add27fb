-- ===== src/Protocol/Inline.antt =====
-- The tests inside lib/src/protocol.rs as programs, and their runs.
use vs_vpn.Prelude.{
  ℕ, ◌≡◌, refl, [], ◌∷◌, ◌++◌, Bytes, Bool, length, take, get_or, drop, replicate, ◌==◌,
}
use vs_vpn.Outcome.{Outcome, ok, ◌>>=◌, ◌>>◌}
use vs_vpn.Std.Asserts.{codes, equal_bytes, assert, is_err, unwrap, unwrap_some}
use vs_vpn.Std.Words.{to_be_bytes, from_be_bytes}
use vs_vpn.Std.Slices.{index, slice}
use vs_vpn.Std.Utf8.{from_utf8_lossy}
use vs_vpn.Std.Format.{show, show_hex}
use vs_vpn.Std.Address.{
  parse_ipv4, read_ipv4, read_octet, parse_ipv6, read_ipv6, read_groups, read_group,
}
use vs_vpn.Protocol.{
  AddressType, ipv4, domain, ipv6, encode_address, parse_header, ipv4_text, ipv6_text, address_type,
  address_code, header_address,
}

-- `assert_eq!` of two address types, by the numbers of `AddressType`
abbrev pub same_type : AddressType → AddressType → Bool
same_type s t = address_code s == address_code t

unfoldable test_encode_address_ipv4 : Outcome (Unit {0})
test_encode_address_ipv4 = do
  let (atyp, bytes) = encode_address (codes "192.168.1.1")
  assert (same_type atyp ipv4)
  assert (equal_bytes bytes (192 ∷ 168 ∷ 1 ∷ 1 ∷ []))

unfoldable test_encode_address_ipv6 : Outcome (Unit {0})
test_encode_address_ipv6 = do
  let (atyp, bytes) = encode_address (codes "::1")
  assert (same_type atyp ipv6)
  assert (length bytes == 16)
  assert (get_or bytes 15 0 == 1)
  assert (equal_bytes (take 15 bytes) (replicate 15 0))

unfoldable test_encode_address_domain : Outcome (Unit {0})
test_encode_address_domain = do
  let (atyp, bytes) = encode_address (codes "example.com")
  assert (same_type atyp domain)
  assert (get_or bytes 0 0 == 11)
  assert (equal_bytes (drop 1 bytes) (codes "example.com"))

unfoldable test_encode_address_localhost_ipv4 : Outcome (Unit {0})
test_encode_address_localhost_ipv4 = do
  let (atyp, bytes) = encode_address (codes "127.0.0.1")
  assert (same_type atyp ipv4)
  assert (equal_bytes bytes (127 ∷ 0 ∷ 0 ∷ 1 ∷ []))

-- A header that is parsed to a type, an address and a port
abbrev parses_to : (data_ : Bytes) → AddressType → Bytes → ℕ → Outcome (Unit {0})
parses_to data_ expected_type expected_addr expected_port = do
  (atyp, addr, port) ← unwrap (parse_header data_)
  assert (same_type atyp expected_type)
  assert (equal_bytes addr expected_addr)
  assert (port == expected_port)

unfoldable test_parse_header_ipv4 : Outcome (Unit {0})
test_parse_header_ipv4 =
    parses_to (0x01 ∷ 10 ∷ 0 ∷ 0 ∷ 1 ∷ 0x01 ∷ 0xbb ∷ []) ipv4 (codes "10.0.0.1") 443

unfoldable test_parse_header_domain : Outcome (Unit {0})
test_parse_header_domain =
    parses_to (0x03 ∷ 3 ∷ b'f' ∷ b'o' ∷ b'o' ∷ 0x1f ∷ 0x90 ∷ []) domain (codes "foo") 8080

unfoldable test_parse_header_ipv6 : Outcome (Unit {0})
test_parse_header_ipv6 =
    parses_to (0x04 ∷ (replicate 15 0 ++ 1 ∷ to_be_bytes 80)) ipv6
      (codes "0000:0000:0000:0000:0000:0000:0000:0001") 80

unfoldable test_parse_header_empty : Outcome (Unit {0})
test_parse_header_empty = assert (is_err (parse_header []))

unfoldable test_parse_header_invalid_atyp : Outcome (Unit {0})
test_parse_header_invalid_atyp = assert (is_err (parse_header (0xff ∷ [])))

unfoldable test_parse_header_short_ipv4 : Outcome (Unit {0})
test_parse_header_short_ipv4 = assert (is_err (parse_header (0x01 ∷ 10 ∷ 0 ∷ 0 ∷ [])))

unfoldable test_parse_header_short_domain : Outcome (Unit {0})
test_parse_header_short_domain = assert (is_err (parse_header (0x03 ∷ 5 ∷ [])))

unfoldable test_parse_header_short_ipv6 : Outcome (Unit {0})
test_parse_header_short_ipv6 = assert (is_err (parse_header (0x04 ∷ replicate 4 0)))

-- The header that a test writes by hand
abbrev pub written_header : AddressType × Bytes → ℕ → Bytes
written_header (atyp, addr_bytes) port = address_code atyp ∷ (addr_bytes ++ to_be_bytes port)

unfoldable test_encode_parse_roundtrip_ipv4 : Outcome (Unit {0})
test_encode_parse_roundtrip_ipv4 = do
  let encoded = encode_address (codes "8.8.8.8")
  parses_to (written_header encoded 53) encoded.0 (codes "8.8.8.8") 53

unfoldable test_encode_parse_roundtrip_domain : Outcome (Unit {0})
test_encode_parse_roundtrip_domain = do
  let encoded = encode_address (codes "api.github.com")
  parses_to (written_header encoded 443) encoded.0 (codes "api.github.com") 443

unfoldable test_encode_parse_roundtrip_ipv6 : Outcome (Unit {0})
test_encode_parse_roundtrip_ipv6 = do
  let (atyp, addr_bytes) = encode_address (codes "2001:db8::1")
  (parsed_atyp, _, parsed_port) ← unwrap (parse_header (written_header (atyp, addr_bytes) 80))
  assert (same_type parsed_atyp atyp)
  assert (parsed_port == 80)
  octets ← unwrap_some (parse_ipv6 (codes "2001:db8::1"))
  assert (equal_bytes addr_bytes octets)

-- All that a run of these programs calls.
calls : ℕ
unfolding encode_address parse_ipv4 read_ipv4 read_octet parse_ipv6 read_ipv6 read_groups read_group
    to_be_bytes from_be_bytes address_code address_type parse_header header_address index slice
    from_utf8_lossy ipv4_text ipv6_text show show_hex
calls = 0

encodes_addresses :
    (test_encode_address_ipv4 ≡ ok tt)
    × (test_encode_address_ipv6 ≡ ok tt)
    × (test_encode_address_domain ≡ ok tt)
    × (test_encode_address_localhost_ipv4 ≡ ok tt)
unfolding test_encode_address_ipv4 test_encode_address_ipv6 test_encode_address_domain
    test_encode_address_localhost_ipv4 calls
encodes_addresses = (refl, refl, refl, refl)

parses_headers :
    (test_parse_header_ipv4 ≡ ok tt)
    × (test_parse_header_domain ≡ ok tt)
    × (test_parse_header_ipv6 ≡ ok tt)
unfolding test_parse_header_ipv4 test_parse_header_domain test_parse_header_ipv6 calls
parses_headers = (refl, refl, refl)

refuses_headers :
    (test_parse_header_empty ≡ ok tt)
    × (test_parse_header_invalid_atyp ≡ ok tt)
    × (test_parse_header_short_ipv4 ≡ ok tt)
    × (test_parse_header_short_domain ≡ ok tt)
    × (test_parse_header_short_ipv6 ≡ ok tt)
unfolding test_parse_header_empty test_parse_header_invalid_atyp test_parse_header_short_ipv4
    test_parse_header_short_domain test_parse_header_short_ipv6 calls
refuses_headers = (refl, refl, refl, refl, refl)

round_trips :
    (test_encode_parse_roundtrip_ipv4 ≡ ok tt)
    × (test_encode_parse_roundtrip_domain ≡ ok tt)
    × (test_encode_parse_roundtrip_ipv6 ≡ ok tt)
unfolding test_encode_parse_roundtrip_ipv4 test_encode_parse_roundtrip_domain
    test_encode_parse_roundtrip_ipv6 calls
round_trips = (refl, refl, refl)
