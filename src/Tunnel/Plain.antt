-- ===== src/Tunnel/Plain.antt =====
-- feature/tunnel/tcp-plain/src/lib.rs: frames with a length of two bytes on a plain stream.
pub mod Frames
use vs_vpn.Prelude.{ℕ, [], ◌∷◌, ◌++◌, Bytes, Bool, Option, none, some, length, get_or}
use vs_vpn.Outcome
use vs_vpn.Outcome.{Outcome, ok, err, panic}
use vs_vpn.Act.{Act, pure, on, continue, ◌>>=◌, ◌>>◌}
use vs_vpn.Io.{Io}
use vs_vpn.Std.Words.{as_u16, to_be_bytes, from_be_bytes}
use vs_vpn.Crypto.{length_or_end}
use vs_vpn.Tunnel.{Tunnel, TunnelConnector, Schedule, race}

-- The stream is gone once the relay has taken it.
pub record PlainTunnel (Stream : Type 0) : Type 0 where
  pub stream : Option Stream

module _ (tokio : Io) where
  open tokio use {Stream, read_exact, write_all, copy_turn}

  unfoldable pub new : Stream → PlainTunnel Stream
  new s = record { stream = some s }

  -- `self.stream.as_mut().expect(…)`: a panic where the stream is gone
  abbrev pub with_stream : {A : Type 0} → Act Stream A → Act (PlainTunnel Stream) A
  with_stream m t = elim t.stream [
    | none ↦ (panic, t)
    | some s ↦ let (r, s') = m s in (r, record { stream = some s' })
  ]

  unfoldable pub send_frame : Bytes → Act (PlainTunnel Stream) (Unit {0})
  send_frame bytes = with_stream do write_all (to_be_bytes (as_u16 (length bytes))); write_all bytes

  unfoldable pub frame_behind : Option Bytes → Act Stream (Option Bytes)
  frame_behind none s = (ok none, s)
  frame_behind (some len_buf) s =
      (do
        frame ← read_exact (from_be_bytes (get_or len_buf 0 0) (get_or len_buf 1 0))
        pure (some frame))
        s

  unfoldable pub recv_frame : Act (PlainTunnel Stream) (Option Bytes)
  recv_frame = with_stream do start ← length_or_end tokio; frame_behind start

  -- `tokio::io::copy` both ways between the stream and the external one
  abbrev copy_out : Act (Stream × Stream) Bool
  copy_out (t, e) = let (r, (e', t')) = copy_turn (e, t) in (r, (t', e'))

  unfoldable pub relay_bidirectional :
      Schedule → Act (PlainTunnel Stream × Stream) (Option (Unit {0}))
  relay_bidirectional schedule (tunnel, external) = elim tunnel.stream [
    | none ↦ (panic, (tunnel, external))
    | some s ↦
        let (r, (_, external')) = race copy_out copy_turn schedule (s, external) in
        (r, (record { stream = none }, external'))
  ]

  -- `impl Tunnel for PlainTunnel`
  abbrev pub plain : Schedule → Tunnel Stream
  plain schedule = record {
    State = PlainTunnel Stream;
    send_frame = send_frame;
    recv_frame = recv_frame;
    relay_bidirectional = relay_bidirectional schedule;
  }

  -- `PlainConnector::connect`: `dial` is `TcpStream::connect`.
  unfoldable pub connect :
      (dial : Bytes → Outcome Stream) → (server_addr : Bytes) → Outcome (PlainTunnel Stream)
  connect dial server_addr = Outcome.◌>>=◌ (dial server_addr) (λ s. ok (new s))

  -- `PlainAcceptor::accept`: what the listener accepted
  unfoldable pub accept : Outcome Stream → Outcome (PlainTunnel Stream)
  accept accepted = Outcome.◌>>=◌ accepted (λ s. ok (new s))
