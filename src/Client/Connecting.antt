-- ===== src/Client/Connecting.antt =====
-- `run` of lib/src/client.rs: with a secret the clients' tunnels are encrypted, and without one plain.
use vs_vpn.Prelude.{Bytes, Option, none, some}
use vs_vpn.Outcome.{Outcome}
use vs_vpn.Act.{Act}
use vs_vpn.Io.{Io}
use vs_vpn.Crypto.Primitives.{Suite}
use vs_vpn.Tunnel.{Schedule}
use vs_vpn.Tunnel.Encrypted
use vs_vpn.Tunnel.Encrypted.{encrypted}
use vs_vpn.Tunnel.Plain
use vs_vpn.Tunnel.Plain.{plain}
use vs_vpn.Client.{handle_socks_client}

module _ (crypto : Suite) (tokio : Io) where
  open tokio use {Stream}

  -- What `run` does for one client, with the connector that it chose.
  unfoldable pub serve_client :
      (dial : Bytes → Outcome Stream) (server_addr random : Bytes) (schedule : Schedule)
      → (secret : Option Bytes) → Act Stream (Option (Unit {0}))
  serve_client dial server_addr random schedule none =
      handle_socks_client tokio (plain tokio schedule) (Plain.connect tokio dial server_addr)
  serve_client dial server_addr random schedule (some psk) =
      handle_socks_client tokio (encrypted crypto tokio schedule)
        (Encrypted.connect crypto tokio dial server_addr psk random)
