-- ===== src/Protocol/Read.antt =====
-- `read_address` of lib/src/protocol.rs: the address of a SOCKS5 request, as a text.
use vs_vpn.Prelude.{Bytes, get_or}
use vs_vpn.Act.{Act, pure, ◌>>=◌}
use vs_vpn.Io.{Io}
use vs_vpn.Std.Utf8.{from_utf8_lossy}
use vs_vpn.Protocol.{AddressType, ipv4, domain, ipv6, ipv4_text, ipv6_text}

module _ (tokio : Io) where
  open tokio use {Stream, read_exact}

  unfoldable pub read_address : AddressType → Act Stream Bytes
  read_address ipv4 = do
    buf ← read_exact 4
    pure (ipv4_text (get_or buf 0 0) (get_or buf 1 0) (get_or buf 2 0) (get_or buf 3 0))
  read_address domain = do
    buf ← read_exact 1
    name ← read_exact (get_or buf 0 0)
    pure (from_utf8_lossy name)
  read_address ipv6 = do buf ← read_exact 16; pure (ipv6_text buf)
