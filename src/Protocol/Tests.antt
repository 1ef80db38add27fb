-- ===== src/Protocol/Tests.antt =====
-- Runs of lib/src/protocol.rs: those of its own tests, and the theorems at concrete inputs.
use vs_vpn.Prelude.{
  ℕ, suc, ◌%◌, ◌^◌, ◌<◌, ◌≡◌, ◌≢◌, refl, [], ◌∷◌, ◌++◌, Bytes, replicate, none, length, take,
  get_or, All, IsByte, arith,
}
use vs_vpn.Protocol.Delivery.{Printed, of_domain, parse_header-Printed, parse_header-long_domain}
use vs_vpn.Protocol.Typing.{IsText, parse_header-IsText}
use vs_vpn.Protocol.Safety.{parse_header-ne-panic}
use vs_vpn.Outcome.{ok, panic, err, text, header_too_short_domain}
use vs_vpn.Std.Asserts.{codes}
use vs_vpn.Std.Utf8.{from_utf8_lossy}
use vs_vpn.Std.Words.{to_be_bytes, from_be_bytes}
use vs_vpn.Std.Slices.{index, slice}
use vs_vpn.Std.Format.{show, show_hex}
use vs_vpn.Std.Address.{
  parse_ipv4, read_ipv4, read_octet, parse_ipv6, read_ipv6, read_groups, read_group,
}
use vs_vpn.Protocol.{
  ipv4, domain, ipv6, encode_address, tunnel_header, parse_header, ipv4_text, ipv6_text,
  address_type, header_address,
}

-- All that a run of `encode_address` calls.
run : ℕ
unfolding encode_address parse_ipv4 read_ipv4 read_octet parse_ipv6 read_ipv6 read_groups read_group
    to_be_bytes
run = 0

encode_ipv4 : encode_address (codes "192.168.1.1") ≡ (ipv4, 192 ∷ 168 ∷ 1 ∷ 1 ∷ [])
unfolding encode_address run
encode_ipv4 = refl

encode_loopback : encode_address (codes "::1") ≡ (ipv6, replicate 15 0 ++ 1 ∷ [])
unfolding encode_address run
encode_loopback = refl

encode_ipv6 :
    encode_address (codes "2001:DB8::a:1.2.3.4")
    ≡ (ipv6, 0x20 ∷ 1 ∷ 0xd ∷ 0xb8 ∷ (replicate 6 0 ++ 0 ∷ 10 ∷ 1 ∷ 2 ∷ 3 ∷ 4 ∷ []))
unfolding encode_address run
encode_ipv6 = refl

encode_domain : encode_address (codes "example.com") ≡ (domain, 11 ∷ codes "example.com")
unfolding encode_address run
encode_domain = refl

parse_port : parse_header (1 ∷ 10 ∷ 0 ∷ 0 ∷ 1 ∷ 0x01 ∷ 0xbb ∷ []) ≡ ok (ipv4, codes "10.0.0.1", 443)
unfolding parse_header address_type header_address index show ipv4_text from_be_bytes
parse_port = refl

parse_domain :
    parse_header (3 ∷ 3 ∷ b'f' ∷ b'o' ∷ b'o' ∷ 0x1f ∷ 0x90 ∷ []) ≡ ok (domain, codes "foo", 8080)
unfolding parse_header address_type header_address index slice from_utf8_lossy from_be_bytes
parse_domain = refl

parse_ipv6_loopback :
    parse_header (4 ∷ (replicate 15 0 ++ 1 ∷ 0 ∷ 80 ∷ []))
    ≡ ok (ipv6, codes "0000:0000:0000:0000:0000:0000:0000:0001", 80)
unfolding parse_header address_type header_address index slice ipv6_text show_hex from_be_bytes
parse_ipv6_loopback = refl

parse_short : parse_header (3 ∷ 5 ∷ []) ≡ err (text header_too_short_domain)
unfolding parse_header address_type header_address index
parse_short = refl

-- An invalid byte of a domain becomes U+FFFD.
lossy :
    from_utf8_lossy (b'a' ∷ 0xff ∷ 0xe2 ∷ 0x82 ∷ b'b' ∷ 0xe2 ∷ 0x82 ∷ 0xac ∷ [])
    ≡ b'a' ∷ 0xef ∷ 0xbf ∷ 0xbd ∷ 0xef ∷ 0xbf ∷ 0xbd ∷ b'b' ∷ 0xe2 ∷ 0x82 ∷ 0xac ∷ []
unfolding from_utf8_lossy
lossy = refl

-- A name that is no address.
abbrev foo : Bytes
foo = codes "foo"

foo-Printed : Printed domain foo
unfolding run from_utf8_lossy
foo-Printed = of_domain foo refl (omega arith) refl refl

parse_header-Printed_example :
    parse_header (tunnel_header foo 8080 ++ (1 ∷ [])) ≡ ok (domain, foo, 8080)
parse_header-Printed_example = parse_header-Printed (1 ∷ []) 8080 foo-Printed (omega arith)

parse_header-ne-panic_example : parse_header (3 ∷ 5 ∷ []) ≢ panic
parse_header-ne-panic_example = parse_header-ne-panic (3 ∷ 5 ∷ [])

abbrev octets : Bytes
octets = 0x20 ∷ 0x01 ∷ 0x0d ∷ 0xb8 ∷ 0 ∷ 0 ∷ 0 ∷ 0 ∷ 0 ∷ 0 ∷ 0 ∷ 0 ∷ 0 ∷ 0 ∷ 0 ∷ 0xff ∷ []

octets-IsByte : All IsByte octets
octets-IsByte = ground arith

abbrev long_name : Bytes
long_name = replicate 300 b'x'

long_name-ipv4 : parse_ipv4 long_name ≡ none
unfolding parse_ipv4
long_name-ipv4 = refl

long_name-ipv6 : parse_ipv6 long_name ≡ none
unfolding parse_ipv6 read_ipv6 read_groups read_group read_ipv4 read_octet
long_name-ipv6 = refl

parse_header-long_domain_example :
    parse_header (tunnel_header long_name 443)
    ≡ ok (
      domain,
      from_utf8_lossy (take (length long_name % 256) long_name),
      from_be_bytes
          (get_or long_name (length long_name % 256) 0)
          (get_or long_name (suc (length long_name % 256)) 0),
    )
parse_header-long_domain_example =
    parse_header-long_domain long_name 443 (omega arith) long_name-ipv4 long_name-ipv6

parse_header-IsText_example :
    IsText (codes "foo") × (8080 < 2 ^ 16) × All IsByte (tunnel_header (codes "foo") 8080)
parse_header-IsText_example =
    parse_header-IsText (3 ∷ 3 ∷ b'f' ∷ b'o' ∷ b'o' ∷ 0x1f ∷ 0x90 ∷ []) domain (codes "foo") 8080
      seven_bytes parse_domain
  where
    seven_bytes : All IsByte (3 ∷ 3 ∷ b'f' ∷ b'o' ∷ b'o' ∷ 0x1f ∷ 0x90 ∷ [])
    seven_bytes = (
      omega arith,
      (omega arith, (omega arith, (omega arith, (omega arith, (omega arith, (omega arith, tt)))))),
    )
