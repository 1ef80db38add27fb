-- ===== src/Protocol/Delivery.antt =====
-- What the server connects to, for the texts that the client can have read from a SOCKS5 request.
use vs_vpn.Prelude.{
  ℕ, ◌%◌, ◌^◌, ◌<◌, ◌≤◌, ◌≡◌, refl, ap, ◌∙◌, [], ◌∷◌, ◌++◌, arith, Bytes, IsByte, All, length, none,
  take, get_or, append_assoc, length-take, suc, split_two, length-append,
}
use vs_vpn.Outcome.{ok}
use vs_vpn.Std.Words.{as_u8, to_be_bytes, from_be_bytes}
use vs_vpn.Std.Utf8.{from_utf8_lossy, IsWellEncoded}
use vs_vpn.Std.Address.{parse_ipv4, parse_ipv6}
use vs_vpn.Protocol.{
  AddressType, ipv4, domain, ipv6, address_code, ipv4_text, ipv6_text, encode_address,
  tunnel_header, parse_header,
}
use vs_vpn.Protocol.Texts.{encode_address-ipv4_text, encode_address-ipv6_text}
use vs_vpn.Protocol.Header.{parse_header-encoded, header_address-eq, parse_header-port}

-- The text of an IPv4 address, of an IPv6 address, or a domain name that is UTF-8, is no address itself
-- and fits the length byte. (`read_address` can return other texts of domain names, too.)
pub data Printed : AddressType → Bytes → Type 0 where
  of_ipv4 :
      (a b c d : ℕ) → IsByte a → IsByte b → IsByte c → IsByte d → Printed ipv4 (ipv4_text a b c d)
  of_ipv6 :
      (octets : Bytes) → All IsByte octets → length octets ≡ 16 → Printed ipv6 (ipv6_text octets)
  of_domain :
      (name : Bytes)
      → IsWellEncoded name
      → length name < 256
      → parse_ipv4 name ≡ none
      → parse_ipv6 name ≡ none
      → Printed domain name

encode_address-domain :
    (name : Bytes)
    → parse_ipv4 name ≡ none
    → parse_ipv6 name ≡ none
    → encode_address name ≡ (domain, as_u8 (length name) ∷ name)
unfolding encode_address
encode_address-domain name h k = rw (encode_address, h, k)

-- The dotted text of four bytes, the text of an IPv6 address of sixteen bytes, and a domain name that is
-- UTF-8, has fewer than 256 bytes and is no address itself reach the server as they are, with their type and
-- their port of 16 bits, whatever follows the header.
pub parse_header-Printed :
    {t : AddressType} {addr : Bytes} (rest : Bytes) (port : ℕ)
    → Printed t addr
    → port < 2 ^ 16
    → parse_header (tunnel_header addr port ++ rest) ≡ ok (t, addr, port)
unfolding tunnel_header
parse_header-Printed rest port (of_ipv4 a b c d ha hb hc hd) h =
    rw (encode_address-ipv4_text a b c d ha hb hc hd)
      (parse_header-encoded ipv4 (a ∷ b ∷ c ∷ d ∷ []) rest port refl h)
parse_header-Printed rest port (of_ipv6 octets bytes sixteen) h =
    rw (encode_address-ipv6_text octets bytes sixteen)
      (parse_header-encoded ipv6 octets rest port sixteen h)
parse_header-Printed rest port (of_domain name valid short not_v4 not_v6) h =
    rw (encode_address-domain name not_v4 not_v6) (
      parse_header-encoded domain (as_u8 (length name) ∷ name) rest port (omega arith) h
      ∙ ap (λ a. ok (domain, a, port)) valid)

-- A text of 256 bytes or more that is no address (a lossy decoding of 255 bytes can have 765)
-- wraps around in the length byte: the server parses only its first `length % 256` bytes, and
-- takes the port from the two bytes of the name behind them, whatever port was asked for.
pub parse_header-long_domain :
    (name : Bytes) (port : ℕ)
    → 256 ≤ length name
    → parse_ipv4 name ≡ none
    → parse_ipv6 name ≡ none
    → parse_header (tunnel_header name port)
      ≡ ok (
        domain,
        from_utf8_lossy (take (length name % 256) name),
        from_be_bytes (get_or name (length name % 256) 0) (get_or name (suc (length name % 256)) 0),
      )
unfolding tunnel_header
parse_header-long_domain name port h not_v4 not_v6 =
    let k : ℕ = length name % 256 in
    let (tail, cut) = split_two k name 0 (omega arith) in
    let o : Bytes = as_u8 (length name) ∷ take k name in
    let hi : ℕ = get_or name k 0 in
    let lo : ℕ = get_or name (suc k) 0 in
    rw (encode_address-domain name not_v4 not_v6) (
      ap (λ s. parse_header (address_code domain ∷ as_u8 (length name) ∷ (s ++ to_be_bytes port)))
        cut
      ∙ rw append_assoc (
          parse_header-port domain o (tail ++ to_be_bytes port) (from_utf8_lossy (take k name)) hi
            lo
            (header_address-eq domain (address_code domain) o (hi ∷ lo ∷ (tail ++ to_be_bytes port))
              (omega (arith, length-take k name (omega arith))) (omega arith))))

-- The header of such a text takes at most 259 bytes.
pub length-tunnel_header :
    {t : AddressType} {addr : Bytes} (port : ℕ)
    → Printed t addr
    → length (tunnel_header addr port) ≤ 259
unfolding tunnel_header to_be_bytes
length-tunnel_header port (of_ipv4 a b c d ha hb hc hd) =
    rw (encode_address-ipv4_text a b c d ha hb hc hd) (omega arith)
length-tunnel_header port (of_ipv6 octets bytes sixteen) =
    rw (encode_address-ipv6_text octets bytes sixteen)
      (omega (arith, length-append octets (to_be_bytes port)))
length-tunnel_header port (of_domain name valid short not_v4 not_v6) =
    rw (encode_address-domain name not_v4 not_v6)
      (omega (arith, length-append name (to_be_bytes port)))
