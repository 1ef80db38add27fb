-- ===== src/Tunnel/Quic.antt =====
-- feature/tunnel/quic/src/lib.rs: frames and relays on the two streams of a QUIC connection. The
-- streams (quinn) are parameters; `split_host_port` is in the child module.
pub mod Cert
pub mod End
pub mod Endpoint
pub mod Frames
pub mod HostPort
pub mod Relay
pub mod Toy
use vs_vpn.Prelude.{
  ℕ, zero, suc, ◌+◌, ◌-◌, [], ◌∷◌, ◌++◌, Bytes, Bool, true, false, Option, none, some, length,
  get_or, replicate,
}
use vs_vpn.Outcome.{Outcome, ok, err, panic, Error, Message, io, other, text}
use vs_vpn.Act.{Act, pure, crash, on, map_err, continue, ◌>>=◌, ◌>>◌}
use vs_vpn.Io.{Io}
use vs_vpn.Std.Words.{as_u16, to_be_bytes, from_be_bytes}
use vs_vpn.Tunnel.{Tunnel, Schedule, race}

-- quinn's streams: `read` fills at most n bytes and answers `None` at the end of the stream.
pub record Quinn : Type 1 where
  pub SendStream : Type 0
  pub RecvStream : Type 0
  pub write_all : Bytes → Act SendStream (Unit {0})
  pub finish : Act SendStream (Unit {0})
  pub read : ℕ → Act RecvStream (Option Bytes)

-- `quic_err`, `io_err`: any error becomes one of kind `Other`.
abbrev pub quic_err : Error → Error
quic_err (io kind m) = io other m
quic_err (text m) = io other m

pub record QuicTunnel (quinn : Quinn) : Type 0 where
  pub send : Option quinn.SendStream
  pub recv : Option quinn.RecvStream

module _ (quinn : Quinn) where
  open quinn use {SendStream, RecvStream, write_all, finish, read}

  unfoldable pub new : SendStream → RecvStream → QuicTunnel quinn
  new s r = record { send = some s; recv = some r }

  -- What a round read: more of the buffer, or nothing, and then the rest of it stays zero.
  abbrev pub after_read :
      (Bytes → ℕ → Act RecvStream (Option (Unit {0}) × Bytes))
      → (filled : Bytes) (todo : ℕ) → Option Bytes
      → Act RecvStream (Option (Unit {0}) × Bytes)
  after_read again filled todo none = pure (none, filled ++ replicate todo 0)
  after_read again filled todo (some []) = pure (none, filled ++ replicate todo 0)
  after_read again filled todo (some (b ∷ bs)) = again (filled ++ b ∷ bs) (todo - length (b ∷ bs))

  -- The loop of `read_exact_quic`: `filled` is the buffer before `offset`, `todo` the length behind
  -- it. The answer is the flag and the whole buffer, which began as zeros. Each round reads at least
  -- a byte, so as many rounds as the buffer is long are enough; running out of them is a panic here.
  unfoldable pub fill :
      (rounds : ℕ) (filled : Bytes) (todo : ℕ) → Act RecvStream (Option (Unit {0}) × Bytes)
  fill rounds filled zero = pure (some tt, filled)
  fill zero filled (suc todo) = crash
  fill (suc rounds) filled (suc todo) = do
    got ← map_err quic_err (read (suc todo))
    after_read (fill rounds) filled (suc todo) got

  -- `read_exact_quic(recv, &mut [0; n])`
  unfoldable pub read_exact_quic : ℕ → Act RecvStream (Option (Unit {0}) × Bytes)
  read_exact_quic n = fill n [] n

  abbrev pub with_send : {A : Type 0} → Act SendStream A → Act (QuicTunnel quinn) A
  with_send m t = elim t.send [
    | none ↦ (panic, t)
    | some s ↦ let (r, s') = m s in (r, record t { send = some s' })
  ]

  abbrev pub with_recv : {A : Type 0} → Act RecvStream A → Act (QuicTunnel quinn) A
  with_recv m t = elim t.recv [
    | none ↦ (panic, t)
    | some s ↦ let (r, s') = m s in (r, record t { recv = some s' })
  ]

  unfoldable pub send_frame : Bytes → Act (QuicTunnel quinn) (Unit {0})
  send_frame bytes = with_send do
    map_err quic_err (write_all (to_be_bytes (as_u16 (length bytes))))
    map_err quic_err (write_all bytes)

  -- The flags of `read_exact_quic` are not looked at.
  unfoldable pub recv_frame : Act (QuicTunnel quinn) (Option Bytes)
  recv_frame = with_recv do
    (_, len_buf) ← read_exact_quic 2
    (_, frame) ← read_exact_quic (from_be_bytes (get_or len_buf 0 0) (get_or len_buf 1 0))
    pure (some frame)

-- The streams of a relay.
pub record Both (quinn : Quinn) (Stream : Type 0) : Type 0 where
  pub send : quinn.SendStream
  pub recv : quinn.RecvStream
  pub external : Stream

module _ (quinn : Quinn) (tokio : Io) where
  abbrev on_send : {A : Type 0} → Act quinn.SendStream A → Act (Both quinn tokio.Stream) A
  on_send = on (λ b. b.send) (λ s b. record b { send = s })

  abbrev on_recv : {A : Type 0} → Act quinn.RecvStream A → Act (Both quinn tokio.Stream) A
  on_recv = on (λ b. b.recv) (λ s b. record b { recv = s })

  abbrev on_external : {A : Type 0} → Act tokio.Stream A → Act (Both quinn tokio.Stream) A
  on_external = on (λ b. b.external) (λ s b. record b { external = s })

  unfoldable pub send_chunk : Bytes → Act (Both quinn tokio.Stream) Bool
  send_chunk [] = do on_send (map_err quic_err quinn.finish); pure true
  send_chunk (b ∷ bs) = do on_send (map_err quic_err (quinn.write_all (b ∷ bs))); pure false

  -- One round of `relay_external_to_quic`
  unfoldable pub relay_external_to_quic : Act (Both quinn tokio.Stream) Bool
  relay_external_to_quic = do chunk ← on_external (tokio.read 16384); send_chunk chunk

  unfoldable pub deliver_chunk : Option Bytes → Act (Both quinn tokio.Stream) Bool
  deliver_chunk none = pure true
  deliver_chunk (some []) = pure true
  deliver_chunk (some (b ∷ bs)) = do on_external (tokio.write_all (b ∷ bs)); pure false

  -- One round of `relay_quic_to_external`
  unfoldable pub relay_quic_to_external : Act (Both quinn tokio.Stream) Bool
  relay_quic_to_external = do
    chunk ← on_recv (map_err quic_err (quinn.read 16384))
    deliver_chunk chunk

  unfoldable pub relay_bidirectional :
      Schedule → Act (QuicTunnel quinn × tokio.Stream) (Option (Unit {0}))
  relay_bidirectional schedule (t, external) = elim t.send [
    | none ↦ (panic, (t, external))
    | some s ↦ elim t.recv [
      | none ↦ (panic, (record t { send = none }, external))
      | some r ↦
          let start : Both quinn tokio.Stream = record {
            send = s;
            recv = r;
            external = external;
          } in
          let (result, end) = race relay_external_to_quic relay_quic_to_external schedule start in
          (result, (record { send = none; recv = none }, end.external))
    ]
  ]

  -- `impl Tunnel for QuicTunnel`
  abbrev pub quic : Schedule → Tunnel tokio.Stream
  quic schedule = record {
    State = QuicTunnel quinn;
    send_frame = send_frame quinn;
    recv_frame = recv_frame quinn;
    relay_bidirectional = relay_bidirectional schedule;
  }
