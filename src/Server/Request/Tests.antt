-- ===== src/Server/Request/Tests.antt =====
-- A SOCKS5 request to connect, carried to the server, at a concrete input.
use vs_vpn.Prelude.{[], ◌∷◌, ◌++◌, Bytes, true, false, some, replicate}
use vs_vpn.Outcome.{Outcome, ok}
use vs_vpn.Io.Pipe.{End, holding}
use vs_vpn.Std.Words.{from_be_bytes}
use vs_vpn.Protocol.{address_code, tunnel_header}
use vs_vpn.Crypto.Toy.{toy}
use vs_vpn.Crypto.Frames.{sealed_frame}
use vs_vpn.Tunnel.{Schedule, outward, inward}
use vs_vpn.Tunnel.Encrypted
use vs_vpn.Tunnel.Encrypted.{EncryptedTunnel, send_key, send_nonce}
use vs_vpn.Client.Request.{Target, ipv4_target, kind, request_address, target_addr}

abbrev wanted : Target
wanted = ipv4_target 10 0 0 1

abbrev header : Bytes
header = tunnel_header (target_addr wanted) (from_be_bytes 1 187)

-- The client offers the methods 2 and 0, asks for 10.0.0.1:443, and one byte stands behind its request.
abbrev conn : End
conn = holding (
    5
    ∷ 2
    ∷ ((2 ∷ 0 ∷ [])
        ++ (5
            ∷ 0x01
            ∷ 0
            ∷ address_code (kind wanted)
            ∷ (request_address wanted ++ (1 ∷ 187 ∷ 99 ∷ [])))))

abbrev dial : Bytes → Outcome End
dial _ = ok (holding (4 ∷ []))

abbrev schedule : Schedule
schedule = outward ∷ inward ∷ []

abbrev client : EncryptedTunnel End
client = record {
  stream = some (holding []);
  client_key = replicate 32 1;
  server_key = replicate 32 2;
  c_nonce = 0;
  s_nonce = 0;
  is_client = true;
}

abbrev in_flight : Bytes
in_flight = sealed_frame toy (send_key client) (send_nonce client) header ++ []

abbrev server : EncryptedTunnel End
server = record client { stream = some (holding in_flight); is_client = false }
