-- ===== src/Server/Relaying.antt =====
-- From the status frame of a session to the start of both relays.
use vs_vpn.Io.{Io}
use vs_vpn.Tunnel.Encrypted
