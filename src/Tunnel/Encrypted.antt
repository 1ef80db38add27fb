-- ===== src/Tunnel/Encrypted.antt =====
-- feature/tunnel/tcp-encrypted/src/lib.rs: a stream, the keys and the counters of both directions.
pub mod Duplex
pub mod HalfClose
pub mod Pairing
use vs_vpn.Prelude.{
  ℕ, zero, [], ◌∷◌, ◌++◌, Bytes, Bool, true, false, Option, none, some, if◌then◌else◌,
}
use vs_vpn.Outcome
use vs_vpn.Outcome.{Outcome, ok, err, panic}
use vs_vpn.Act.{Act, pure, on, lift, continue, ◌>>=◌}
use vs_vpn.Io.{Io}
use vs_vpn.Crypto.Primitives.{Suite}
use vs_vpn.Crypto.{
  Channel, Relay, secure_handshake, write_encrypted_frame, read_encrypted_frame, send_round,
  receive_round,
}
use vs_vpn.Tunnel.{Tunnel, Schedule, race}

pub record EncryptedTunnel (Stream : Type 0) : Type 0 where
  pub stream : Option Stream
  pub client_key : Bytes
  pub server_key : Bytes
  pub c_nonce : ℕ
  pub s_nonce : ℕ
  pub is_client : Bool

module _ {Stream : Type 0} where
  -- A client sends under its key and counter, and receives under the server's; a server the other
  -- way round.
  abbrev pub send_key : EncryptedTunnel Stream → Bytes
  send_key t = if t.is_client then t.client_key else t.server_key

  abbrev pub recv_key : EncryptedTunnel Stream → Bytes
  recv_key t = if t.is_client then t.server_key else t.client_key

  abbrev pub send_nonce : EncryptedTunnel Stream → ℕ
  send_nonce t = if t.is_client then t.c_nonce else t.s_nonce

  abbrev pub recv_nonce : EncryptedTunnel Stream → ℕ
  recv_nonce t = if t.is_client then t.s_nonce else t.c_nonce

  abbrev pub put_send : Channel Stream → EncryptedTunnel Stream → EncryptedTunnel Stream
  put_send c t = record t {
    stream = some c.stream;
    c_nonce = if t.is_client then c.nonce else t.c_nonce;
    s_nonce = if t.is_client then t.s_nonce else c.nonce;
  }

  abbrev pub put_recv : Channel Stream → EncryptedTunnel Stream → EncryptedTunnel Stream
  put_recv c t = record t {
    stream = some c.stream;
    c_nonce = if t.is_client then t.c_nonce else c.nonce;
    s_nonce = if t.is_client then c.nonce else t.s_nonce;
  }

-- The two streams of a relay and the counters of both directions.
pub record Both (Stream : Type 0) : Type 0 where
  pub tunnel : Stream
  pub external : Stream
  pub send_counter : ℕ
  pub recv_counter : ℕ

module _ {Stream : Type 0} where
  -- Where the relay of a tunnel begins, on its stream and the external one.
  abbrev pub start_relay : EncryptedTunnel Stream → (stream external : Stream) → Both Stream
  start_relay t s external = record {
    tunnel = s;
    external = external;
    send_counter = send_nonce t;
    recv_counter = recv_nonce t;
  }

  abbrev pub outwards : {A : Type 0} → Act (Relay Stream) A → Act (Both Stream) A
  outwards =
      on (λ b. record { reader = b.external; writer = b.tunnel; nonce = b.send_counter })
        (λ r b. record b { external = r.reader; tunnel = r.writer; send_counter = r.nonce })

  abbrev pub inwards : {A : Type 0} → Act (Relay Stream) A → Act (Both Stream) A
  inwards =
      on (λ b. record { reader = b.tunnel; writer = b.external; nonce = b.recv_counter })
        (λ r b. record b { tunnel = r.reader; external = r.writer; recv_counter = r.nonce })

module _ (crypto : Suite) (tokio : Io) where
  open tokio use {Stream}

  -- `EncryptedTunnel::new`
  unfoldable pub new :
      (psk random : Bytes) (is_client : Bool) → Stream → Outcome (EncryptedTunnel Stream)
  new psk random is_client s =
      let (keys, s') = secure_handshake crypto tokio psk random is_client s in
      Outcome.◌>>=◌ keys λ (ck, sk). ok (record {
        stream = some s';
        client_key = ck;
        server_key = sk;
        c_nonce = 0;
        s_nonce = 0;
        is_client = is_client;
      })

  unfoldable pub send_frame : Bytes → Act (EncryptedTunnel Stream) (Unit {0})
  send_frame bytes t = elim t.stream [
    | none ↦ (panic, t)
    | some s ↦
        let (r, c) =
          write_encrypted_frame crypto tokio bytes (send_key t)
            (record { stream = s; nonce = send_nonce t }) in
        (r, put_send c t)
  ]

  unfoldable pub recv_frame : Act (EncryptedTunnel Stream) (Option Bytes)
  recv_frame t = elim t.stream [
    | none ↦ (panic, t)
    | some s ↦
        let (r, c) =
          read_encrypted_frame crypto tokio (recv_key t)
            (record { stream = s; nonce = recv_nonce t }) in
        (r, put_recv c t)
  ]

  unfoldable pub relay_bidirectional :
      Schedule → Act (EncryptedTunnel Stream × Stream) (Option (Unit {0}))
  relay_bidirectional schedule (t, external) = elim t.stream [
    | none ↦ (panic, (t, external))
    | some s ↦
        let (r, end) =
          race (outwards (send_round crypto tokio (send_key t)))
            (inwards (receive_round crypto tokio (recv_key t))) schedule
            (start_relay t s external) in
        (
          r,
          (
            record t {
              stream = none;
              c_nonce = if t.is_client then end.send_counter else end.recv_counter;
              s_nonce = if t.is_client then end.recv_counter else end.send_counter;
            },
            end.external,
          ),
        )
  ]

  -- `impl Tunnel for EncryptedTunnel`
  abbrev pub encrypted : Schedule → Tunnel Stream
  encrypted schedule = record {
    State = EncryptedTunnel Stream;
    send_frame = send_frame;
    recv_frame = recv_frame;
    relay_bidirectional = relay_bidirectional schedule;
  }

  -- `EncryptedConnector::connect`: `dial` is `TcpStream::connect`.
  unfoldable pub connect :
      (dial : Bytes → Outcome Stream) (server_addr psk random : Bytes)
      → Outcome (EncryptedTunnel Stream)
  connect dial server_addr psk random = Outcome.◌>>=◌ (dial server_addr) (new psk random true)

  -- `EncryptedAcceptor::accept`: the handshake runs before the next connection is accepted.
  unfoldable pub accept : (psk random : Bytes) → Outcome Stream → Outcome (EncryptedTunnel Stream)
  accept psk random accepted = Outcome.◌>>=◌ accepted (new psk random false)
