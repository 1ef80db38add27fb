-- ===== src/Server/Request.antt =====
-- From the bytes of a SOCKS5 request to what the server dials.
mod Tests
use vs_vpn.Prelude.{◌+◌, ◌*◌, ◌<◌, ◌≤◌, ◌≡◌, refl, IsByte, All, Option, none, length}
use vs_vpn.Outcome.{Outcome}
use vs_vpn.Io.{Io}
use vs_vpn.Std.Utf8.{from_utf8_lossy}
use vs_vpn.Std.Utf8.Lossy.{from_utf8_lossy-IsWellEncoded}
use vs_vpn.Std.Address.{parse_ipv4, parse_ipv6}
use vs_vpn.Protocol.{AddressType}
use vs_vpn.Protocol.Delivery.{Printed, of_ipv4, of_ipv6, of_domain}
use vs_vpn.Tunnel.Encrypted
use vs_vpn.Client.Request.{
  Target, ipv4_target, domain_target, ipv6_target, IsTarget, kind, target_addr,
}

-- A target of bytes; a domain is no address itself, and its text, where invalid UTF-8 has become U+FFFD,
-- fits the length byte.
abbrev pub IsProper : Target → Type 0
IsProper (ipv4_target a b c d) = IsByte a × IsByte b × IsByte c × IsByte d
IsProper (ipv6_target octets) = All IsByte octets × (length octets ≡ 16)
IsProper (domain_target name) =
    (length (from_utf8_lossy name) < 256)
    × (parse_ipv4 (from_utf8_lossy name) ≡ none)
    × (parse_ipv6 (from_utf8_lossy name) ≡ none)

pub IsProper-IsTarget : (t : Target) → IsProper t → IsTarget t
IsProper-IsTarget (ipv4_target a b c d) h = tt
IsProper-IsTarget (ipv6_target octets) h = h.1
IsProper-IsTarget (domain_target name) h = tt

-- The text of any proper target is one that the header carries.
pub IsProper-Printed : (t : Target) → IsProper t → Printed (kind t) (target_addr t)
IsProper-Printed (ipv4_target a b c d) (ha, hb, hc, hd) = of_ipv4 a b c d ha hb hc hd
IsProper-Printed (ipv6_target octets) (h, sixteen) = of_ipv6 octets h sixteen
IsProper-Printed (domain_target name) (short, not_v4, not_v6) =
    of_domain (from_utf8_lossy name) (from_utf8_lossy-IsWellEncoded name) short not_v4 not_v6
