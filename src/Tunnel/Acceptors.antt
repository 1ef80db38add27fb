-- ===== src/Tunnel/Acceptors.antt =====
-- The acceptors and connectors of feature/tunnel/tcp-plain/src/lib.rs and
-- feature/tunnel/tcp-encrypted/src/lib.rs, and how every transport accepts.
use vs_vpn.Prelude.{Bytes, Option}
use vs_vpn.Outcome.{Outcome, ok, ◌>>=◌}
use vs_vpn.Io.{Io}
use vs_vpn.Io.Listening.{Listeners}
use vs_vpn.Std.Address.Socket.{SocketAddr}
use vs_vpn.Crypto.Primitives.{Suite}
use vs_vpn.Tunnel.{Schedule, TunnelAcceptor}
use vs_vpn.Tunnel.Plain
use vs_vpn.Tunnel.Plain.{plain}
use vs_vpn.Tunnel.Encrypted
use vs_vpn.Tunnel.Encrypted.{encrypted}
use vs_vpn.Tunnel.Quic.{Quinn, quic}
use vs_vpn.Tunnel.Quic.Endpoint.{Network, quic_accept, quic_local_addr}

module _ (tcp : Listeners) where
  pub record PlainAcceptor : Type 0 where
    pub listener : tcp.Listener

  pub record EncryptedAcceptor : Type 0 where
    pub listener : tcp.Listener
    pub psk : Bytes

  -- `PlainAcceptor::bind`
  abbrev pub plain_bind : (addr : Bytes) → Outcome PlainAcceptor
  plain_bind addr = tcp.bind addr >>= λ listener. ok (record { listener = listener })

  -- `EncryptedAcceptor::bind`
  abbrev pub encrypted_bind : (addr psk : Bytes) → Outcome EncryptedAcceptor
  encrypted_bind addr psk =
      tcp.bind addr >>= λ listener. ok (record { listener = listener; psk = psk })

  module _ (tokio : Io) (schedule : Schedule) where
    open tokio use {Stream}

    -- `impl TunnelAcceptor for PlainAcceptor`
    abbrev pub plain_acceptor : TunnelAcceptor (plain tokio schedule)
    plain_acceptor = record {
      Acceptor = PlainAcceptor;
      Arrival = Outcome (Stream × SocketAddr);
      accept = λ a arrived. arrived >>= λ (stream, addr).
          Plain.accept tokio (ok stream) >>= λ tunnel. ok (tunnel, addr);
      local_addr = λ a. tcp.local_addr a.listener;
    }

    -- `impl TunnelAcceptor for EncryptedAcceptor`: with a connection come the random bytes of its handshake.
    abbrev pub encrypted_acceptor :
        (crypto : Suite) → TunnelAcceptor (encrypted crypto tokio schedule)
    encrypted_acceptor crypto = record {
      Acceptor = EncryptedAcceptor;
      Arrival = Bytes × Outcome (Stream × SocketAddr);
      accept = λ a (random, arrived). arrived >>= λ (stream, addr).
          Encrypted.accept crypto tokio a.psk random (ok stream) >>= λ tunnel. ok (tunnel, addr);
      local_addr = λ a. tcp.local_addr a.listener;
    }

-- `impl TunnelAcceptor for QuicAcceptor`
abbrev pub quic_acceptor :
    (quinn : Quinn) (net : Network quinn) (tokio : Io) (schedule : Schedule)
    → TunnelAcceptor (quic quinn tokio schedule)
quic_acceptor quinn net tokio schedule = record {
  Acceptor = net.Endpoint;
  Arrival = Option net.Incoming;
  accept = λ a arrived. quic_accept quinn net arrived;
  local_addr = quic_local_addr quinn net;
}
