-- ===== src/Tunnel/Connectors.antt =====
-- The connectors of the three transports.
use vs_vpn.Prelude.{Bytes}
use vs_vpn.Outcome.{Outcome}
use vs_vpn.Io.{Io}
use vs_vpn.Crypto.Primitives.{Suite}
use vs_vpn.Tunnel.{Schedule, TunnelConnector}
use vs_vpn.Tunnel.Plain
use vs_vpn.Tunnel.Plain.{plain}
use vs_vpn.Tunnel.Encrypted
use vs_vpn.Tunnel.Encrypted.{encrypted}
use vs_vpn.Tunnel.Quic.{Quinn, quic}
use vs_vpn.Tunnel.Quic.Endpoint.{Network, QuicConnector, quic_connect}

pub record PlainConnector : Type 0 where
  pub server_addr : Bytes

pub record EncryptedConnector : Type 0 where
  pub server_addr : Bytes
  pub psk : Bytes

-- `dial` is `TcpStream::connect`.
module _ (tokio : Io) (schedule : Schedule) (dial : Bytes → Outcome tokio.Stream) where
  -- `impl TunnelConnector for PlainConnector`
  abbrev pub plain_connector : TunnelConnector (plain tokio schedule)
  plain_connector = record {
    Connector = PlainConnector;
    connect = λ c. Plain.connect tokio dial c.server_addr;
  }

  -- `impl TunnelConnector for EncryptedConnector`, with the random bytes of its handshake
  abbrev pub encrypted_connector :
      (crypto : Suite) (random : Bytes) → TunnelConnector (encrypted crypto tokio schedule)
  encrypted_connector crypto random = record {
    Connector = EncryptedConnector;
    connect = λ c. Encrypted.connect crypto tokio dial c.server_addr c.psk random;
  }

-- `impl TunnelConnector for QuicConnector`
abbrev pub quic_connector :
    (quinn : Quinn) (net : Network quinn) (tokio : Io) (schedule : Schedule)
    → TunnelConnector (quic quinn tokio schedule)
quic_connector quinn net tokio schedule = record {
  Connector = QuicConnector quinn net;
  connect = quic_connect quinn net;
}
