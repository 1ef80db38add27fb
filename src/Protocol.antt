-- ===== src/Protocol.antt =====
-- lib/src/protocol.rs: the address types and codes of SOCKS5, the tunnel header and its parser.
pub mod Safety
pub mod Read
pub mod Delivery
pub mod Header
pub mod Texts
pub mod Typing
mod Tests
pub mod Inline
use vs_vpn.Prelude.{
  ℕ, zero, suc, ◌+◌, ◌*◌, [], ◌∷◌, ◌++◌, Bytes, Option, none, some, ltb, length, ◌==◌,
  if◌then◌else◌,
}
use vs_vpn.Outcome.{
  Outcome, ok, err, text, ok_or, ◌>>=◌, empty_header, unsupported_address_type,
  header_too_short_ipv4, header_too_short_domain, header_too_short_ipv6,
}
use vs_vpn.Std.Words.{as_u8, to_be_bytes, from_be_bytes}
use vs_vpn.Std.Slices.{index, slice}
use vs_vpn.Std.Utf8.{from_utf8_lossy}
use vs_vpn.Std.Format.{show, show_hex}
use vs_vpn.Std.Address.{parse_ipv4, parse_ipv6}

abbrev pub socks_version : ℕ
socks_version = 0x05

abbrev pub socks_auth_no_acceptable : ℕ
socks_auth_no_acceptable = 0xff

pub data AddressType : Type 0 where
  ipv4 domain ipv6 : AddressType

-- `atyp as u8`
unfoldable pub address_code : AddressType → ℕ
address_code ipv4 = 0x01
address_code domain = 0x03
address_code ipv6 = 0x04

-- `AddressType::from_u8`
unfoldable pub address_type : ℕ → Option AddressType
address_type v =
    if v == 0x01
    then some ipv4
    else if v == 0x03
    then some domain
    else if v == 0x04
    then some ipv6
    else none

pub data SocksReply : Type 0 where
  succeeded general_failure connection_not_allowed network_unreachable : SocksReply
  host_unreachable connection_refused command_not_supported : SocksReply

-- `rep as u8`
unfoldable pub reply_code : SocksReply → ℕ
reply_code succeeded = 0x00
reply_code general_failure = 0x01
reply_code connection_not_allowed = 0x02
reply_code network_unreachable = 0x03
reply_code host_unreachable = 0x04
reply_code connection_refused = 0x05
reply_code command_not_supported = 0x07

pub data SocksCommand : Type 0 where
  connect bind udp_associate : SocksCommand

-- `SocksCommand::from_u8`
unfoldable pub socks_command : ℕ → Option SocksCommand
socks_command v =
    if v == 0x01
    then some connect
    else if v == 0x02
    then some bind
    else if v == 0x03
    then some udp_associate
    else none

-- `format!("{}.{}.{}.{}", a, b, c, d)`
unfoldable pub ipv4_text : (a b c d : ℕ) → Bytes
ipv4_text a b c d = show a ++ b'.' ∷ (show b ++ b'.' ∷ (show c ++ b'.' ∷ show d))

-- The groups of `ipv6_text` that follow the first, each behind its colon.
unfoldable pub ipv6_groups : Bytes → Bytes
ipv6_groups [] = []
ipv6_groups (a ∷ []) = []
ipv6_groups (a ∷ b ∷ rest) = b':' ∷ (show_hex a ++ show_hex b) ++ ipv6_groups rest

-- Pairs of bytes by `format!("{:02x}{:02x}")`, joined by colons
unfoldable pub ipv6_text : Bytes → Bytes
unfolding ipv6_groups
ipv6_text [] = []
ipv6_text (a ∷ []) = []
ipv6_text (a ∷ b ∷ rest) = (show_hex a ++ show_hex b) ++ ipv6_groups rest

unfoldable pub encode_address : Bytes → AddressType × Bytes
encode_address addr = elim (parse_ipv4 addr) [
  | some octets ↦ (ipv4, octets)
  | none ↦ elim (parse_ipv6 addr) [
    | some octets ↦ (ipv6, octets)
    | none ↦ (domain, as_u8 (length addr) ∷ addr)
  ]
]

-- The header that the client sends: the type, the address, the port.
unfoldable pub tunnel_header : Bytes → ℕ → Bytes
tunnel_header addr port =
    let (atyp, addr_bytes) = encode_address addr in
    address_code atyp ∷ (addr_bytes ++ to_be_bytes port)

-- The address of the header and how many bytes it takes.
unfoldable pub header_address : AddressType → Bytes → Outcome (ℕ × Bytes)
header_address ipv4 data_ =
    if ltb (length data_) (1 + 4 + 2) then err (text header_too_short_ipv4) else (do
      a ← index data_ 1
      b ← index data_ 2
      c ← index data_ 3
      d ← index data_ 4
      ok (4, ipv4_text a b c d))
header_address domain data_ =
    if ltb (length data_) (1 + 1) then err (text header_too_short_domain) else (do
      len ← index data_ 1
      (if ltb (length data_) (1 + (1 + len) + 2)
          then err (text header_too_short_domain)
          else (do name ← slice data_ 2 (2 + len); ok (1 + len, from_utf8_lossy name))))
header_address ipv6 data_ =
    if ltb (length data_) (1 + 16 + 2)
    then err (text header_too_short_ipv6)
    else (do octets ← slice data_ 1 (1 + 16); ok (16, ipv6_text octets))

-- The port behind the address.
unfoldable pub header_port : AddressType → Bytes → ℕ × Bytes → Outcome (AddressType × Bytes × ℕ)
header_port atyp data_ (addr_bytes, addr) = do
  hi ← index data_ (1 + addr_bytes)
  lo ← index data_ (1 + addr_bytes + 1)
  ok (atyp, addr, from_be_bytes hi lo)

unfoldable pub parse_header : Bytes → Outcome (AddressType × Bytes × ℕ)
unfolding header_port
parse_header [] = err (text empty_header)
parse_header (first ∷ rest) = do
  atyp ← ok_or (address_type first) (text (unsupported_address_type first))
  found ← header_address atyp (first ∷ rest)
  header_port atyp (first ∷ rest) found
