-- ===== src/Server/Session.antt =====
-- One session: the server connects to the target that the client was asked for.
use vs_vpn.Prelude.{ℕ, ◌^◌, ◌<◌, ◌≡◌, [], ◌++◌, append-nil, arith, Bytes, true, some}
use vs_vpn.Outcome.{Outcome, ok}
use vs_vpn.Io.{Io, Wire}
use vs_vpn.Protocol.{AddressType, tunnel_header, parse_header}
use vs_vpn.Protocol.Delivery.{Printed, parse_header-Printed, length-tunnel_header}
use vs_vpn.Crypto.Primitives.{Suite, IsAead}
use vs_vpn.Crypto.Frames.{sealed_frame}
use vs_vpn.Tunnel.{Tunnel, Schedule}
use vs_vpn.Tunnel.Encrypted
use vs_vpn.Tunnel.Encrypted.{EncryptedTunnel, encrypted, send_key, send_nonce}
use vs_vpn.Tunnel.Encrypted.Pairing.{Paired, recv_frame-send_frame}
use vs_vpn.Server.{target_text, answer, run_tunnel_server}

module _ {Stream : Type 0} (tunnel : Tunnel Stream) where
  open tunnel use {State, recv_frame}

  -- Through any tunnel: where the first frame is the header of a text that the client can have
  -- read, with a port of 16 bits, the server dials this text with this port, and goes on by what
  -- the dialling answers.
  pub run_tunnel_server-dials :
      (dial : Bytes → Outcome Stream) (t t' : State) {kind : AddressType} {addr : Bytes} (port : ℕ)
      → Printed kind addr
      → port < 2 ^ 16
      → recv_frame t ≡ (ok (some (tunnel_header addr port)), t')
      → run_tunnel_server tunnel dial t ≡ answer tunnel (dial (target_text addr port)) t'
  unfolding run_tunnel_server
  run_tunnel_server-dials dial t t' {kind} {addr} port printed h received = rw (received, parsed)
    where
      parsed : parse_header (tunnel_header addr port) ≡ ok (kind, addr, port)
      parsed = rw append-nil at (parse_header-Printed [] port printed h)

module _ (crypto : Suite) (laws : IsAead crypto) (tokio : Io) (wire : Wire tokio) where
  open tokio use {Stream}

  -- Through an encrypted pair in step: the header that the client sends over a stream which takes
  -- it, for a text that it can have read and a port of 16 bits, leaves as one sealed frame, and
  -- the server to which this frame has arrived dials the text with the port, and goes on by what
  -- the dialling answers. The pair stays in step.
  pub encrypted_session :
      (dial : Bytes → Outcome Stream) (schedule : Schedule) {kind : AddressType} {addr : Bytes}
      (port : ℕ) (rest : Bytes) (a b : EncryptedTunnel Stream) (s t : Stream)
      → Printed kind addr
      → port < 2 ^ 16
      → Paired a b
      → a.stream ≡ some s
      → b.stream ≡ some t
      → wire.accepting s ≡ true
      → wire.arrived t
        ≡ sealed_frame crypto (send_key a) (send_nonce a) (tunnel_header addr port) ++ rest
      → (a' : EncryptedTunnel Stream) × (b' : EncryptedTunnel Stream) × (s' : Stream)
        × (Encrypted.send_frame crypto tokio (tunnel_header addr port) a ≡ (ok tt, a'))
        × (a'.stream ≡ some s')
        × (wire.sent s'
            ≡ wire.sent s
              ++ sealed_frame crypto (send_key a) (send_nonce a) (tunnel_header addr port))
        × (run_tunnel_server (encrypted crypto tokio schedule) dial b
            ≡ answer (encrypted crypto tokio schedule) (dial (target_text addr port)) b')
        × Paired a' b'
  encrypted_session dial schedule {addr = addr} port rest a b s t printed h p has_a has_b acc
        arrived =
      let (a', b', s', _, sent, got, has_a', _, on_wire, _, p') =
        recv_frame-send_frame crypto laws tokio wire (tunnel_header addr port) rest a b s t p has_a
          has_b acc (omega (arith, length-tunnel_header port printed)) arrived in
      (
        a',
        b',
        s',
        sent,
        has_a',
        on_wire,
        run_tunnel_server-dials (encrypted crypto tokio schedule) dial b b' port printed h got,
        p',
      )
