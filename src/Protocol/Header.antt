-- ===== src/Protocol/Header.antt =====
-- The tunnel header: what the server parses from what the client sends.
use vs_vpn.Prelude.{
  ℕ, suc, ◌+◌, ◌/◌, ◌%◌, ◌^◌, ◌<◌, ◌≤◌, ◌≡◌, refl, ap, ◌∙◌, [], ◌∷◌, ◌++◌, arith, Bytes, length,
  length-append, append_assoc, some, le→ltb, get_or, drop, Option-cases, inl, inr,
}
use vs_vpn.Outcome.{ok}
use vs_vpn.Std.Words.{to_be_bytes, from_be_bytes, from_be_bytes-to_be_bytes}
use vs_vpn.Std.Slices.{index, index-append, slice-append}
use vs_vpn.Std.Utf8.{from_utf8_lossy}
use vs_vpn.Std.Address.{parse_ipv4, parse_ipv6}
use vs_vpn.Std.Address.V4.{parse_ipv4-octets}
use vs_vpn.Std.Address.V6.{parse_ipv6-octets}
use vs_vpn.Protocol.{
  AddressType, ipv4, domain, ipv6, address_code, address_type, ipv4_text, ipv6_text, encode_address,
  tunnel_header, header_address, parse_header,
}

-- The text that an encoded address stands for.
abbrev pub decoded : AddressType × Bytes → Bytes
decoded (ipv4, o) = ipv4_text (get_or o 0 0) (get_or o 1 0) (get_or o 2 0) (get_or o 3 0)
decoded (ipv6, o) = ipv6_text o
decoded (domain, o) = from_utf8_lossy (drop 1 o)

-- The address fits the header: its bytes are as many as the parser takes.
abbrev pub Fits : AddressType × Bytes → Type 0
Fits (ipv4, o) = length o ≡ 4
Fits (ipv6, o) = length o ≡ 16
Fits (domain, o) = length o ≡ 1 + get_or o 0 0

pub address_type-address_code : (t : AddressType) → address_type (address_code t) ≡ some t
unfolding address_type address_code
address_type-address_code ipv4 = refl
address_type-address_code domain = refl
address_type-address_code ipv6 = refl

-- The address stands between the type and the rest.
pub header_address-eq :
    (t : AddressType) (first : ℕ) (o rest : Bytes)
    → Fits (t, o)
    → 2 ≤ length rest
    → header_address t (first ∷ (o ++ rest)) ≡ ok (length o, decoded (t, o))
unfolding header_address
header_address-eq ipv4 first (a ∷ b ∷ c ∷ d ∷ []) rest h k = unfold index in ground arith
header_address-eq ipv4 first o rest h k = absurd (omega arith)
header_address-eq ipv6 first o rest h k =
    rw
      (
        le→ltb (suc (length (o ++ rest))) (1 + 16 + 2) (omega (arith, length-append o rest)),
        slice-append (first ∷ []) o rest 1 (1 + 16) refl (omega arith),
      )
      (ap (λ (n : ℕ). ok (n, ipv6_text o)) (omega arith))
header_address-eq domain first [] rest h k = absurd (omega arith)
header_address-eq domain first (n ∷ name) rest h k =
    rw
      (
        le→ltb (suc (suc (length (name ++ rest)))) (1 + 1) (omega arith),
        index-append (first ∷ []) (name ++ rest) n 1 refl,
        le→ltb (suc (suc (length (name ++ rest)))) (1 + (1 + n) + 2)
            (omega (arith, length-append name rest)),
        slice-append (first ∷ n ∷ []) name rest 2 (2 + n) refl (omega arith),
      )
      (ap (λ (m : ℕ). ok (m, from_utf8_lossy name)) (omega arith))

-- The port stands behind the address.
pub parse_header-port :
    (t : AddressType) (o rest addr : Bytes) (hi lo : ℕ)
    → header_address t (address_code t ∷ (o ++ hi ∷ lo ∷ rest)) ≡ ok (length o, addr)
    → parse_header (address_code t ∷ (o ++ hi ∷ lo ∷ rest)) ≡ ok (t, addr, from_be_bytes hi lo)
unfolding parse_header
parse_header-port t o rest addr hi lo h = rw (
  address_type-address_code t,
  h,
  index-append (address_code t ∷ o) (lo ∷ rest) hi (1 + length o) (omega arith),
  second,
)
  where
    second : index (address_code t ∷ (o ++ hi ∷ lo ∷ rest)) (1 + length o + 1) ≡ ok lo
    second = rw (append_assoc o (hi ∷ []) (lo ∷ rest)) at (
        index-append (address_code t ∷ (o ++ hi ∷ [])) rest lo (1 + length o + 1)
          (simp length-append (omega arith)))

encode_address-Fits : (addr : Bytes) → length addr < 256 → Fits (encode_address addr)
unfolding encode_address
encode_address-Fits addr h = elim (Option-cases (parse_ipv4 addr)) [
  | inr (o, e) ↦ rw (e, encode_address) (parse_ipv4-octets addr o e)
  | inl e ↦ elim (Option-cases (parse_ipv6 addr)) [
    | inr (o, f) ↦ rw (encode_address, e, f) (parse_ipv6-octets addr o f)
    | inl f ↦ rw (encode_address, e, f) (omega arith)
  ]
]

-- A header with any encoded address is parsed to what that address stands for.
pub parse_header-encoded :
    (t : AddressType) (o rest : Bytes) (port : ℕ)
    → Fits (t, o)
    → port < 2 ^ 16
    → parse_header (address_code t ∷ (o ++ to_be_bytes port) ++ rest) ≡ ok (t, decoded (t, o), port)
unfolding to_be_bytes
parse_header-encoded t o rest port h k = rw append_assoc (
    parse_header-port t o rest (decoded (t, o)) (port / 256 % 256) (port % 256) (
      header_address-eq t (address_code t) o ((port / 256 % 256) ∷ (port % 256) ∷ rest) h
        (omega arith))
    ∙ ap (λ (p : ℕ). ok (t, decoded (t, o), p)) (from_be_bytes-to_be_bytes port k))

-- For every text of at most 255 bytes and every port of 16 bits, the server parses the header
-- that the client builds, whatever follows it, to the type of the encoded address, the text of
-- that address, and the port.
pub parse_header-tunnel_header :
    (addr rest : Bytes) (port : ℕ)
    → length addr < 256
    → port < 2 ^ 16
    → parse_header (tunnel_header addr port ++ rest)
      ≡ ok ((encode_address addr).0, decoded (encode_address addr), port)
unfolding tunnel_header
parse_header-tunnel_header addr rest port h k =
    let (t, o) = encode_address addr in
    parse_header-encoded t o rest port (encode_address-Fits addr h) k
