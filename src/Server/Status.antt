-- ===== src/Server/Status.antt =====
-- The server's answer to a target, and what becomes of it at the SOCKS5 client.
use vs_vpn.Prelude.{◌≡◌, refl, [], ◌∷◌, ◌++◌, arith, Bytes, true, some}
use vs_vpn.Outcome.{ok, err, Error, text, server_rejected}
use vs_vpn.Io.{Io, Wire}
use vs_vpn.Protocol.{succeeded, reply_code, address_code}
use vs_vpn.Crypto.Primitives.{Suite, IsAead}
use vs_vpn.Crypto.Frames.{sealed_frame}
use vs_vpn.Tunnel.{Schedule}
use vs_vpn.Tunnel.Encrypted
use vs_vpn.Tunnel.Encrypted.{EncryptedTunnel, encrypted, send_key, send_nonce}
use vs_vpn.Tunnel.Encrypted.Pairing.{Paired, Passed, frame_passes, recv_frame-send_frame}
use vs_vpn.Server.{answer, relay_with}
use vs_vpn.Client.{run_tunnel_client, on_status, relay, send_socks_reply, reply_bytes}
use vs_vpn.Client.Handling.{on_status-rejected}

module _ (crypto : Suite) (laws : IsAead crypto) (tokio : Io) (wire : Wire tokio) where
  open tokio use {Stream}

  -- Where the server cannot connect to the target, over a pair that is in step once the client has
  -- sent its header: the server fails with its error after one frame, over a stream that takes it, and
  -- the client to which this frame has arrived tells the SOCKS5 client, whose stream takes the reply,
  -- "connection refused", and fails. This frame is just what the server's answer has put on the wire. The
  -- pair is in step again.
  pub run_tunnel_client-refused :
      (e : Error) (schedule : Schedule) (header rest : Bytes) (a a₁ b : EncryptedTunnel Stream)
      (s t conn : Stream)
      → Encrypted.send_frame crypto tokio header a ≡ (ok tt, a₁)
      → Paired b a₁
      → b.stream ≡ some t
      → a₁.stream ≡ some s
      → wire.accepting t ≡ true
      → wire.accepting conn ≡ true
      → wire.arrived s ≡ sealed_frame crypto (send_key b) (send_nonce b) (5 ∷ []) ++ rest
      → (a₂ : EncryptedTunnel Stream) × (b' : EncryptedTunnel Stream) × (conn' : Stream)
        × (t' : Stream) × (answer (encrypted crypto tokio schedule) (err e) b ≡ (err e, b'))
        × (b'.stream ≡ some t')
        × (wire.sent t' ≡ wire.sent t ++ sealed_frame crypto (send_key b) (send_nonce b) (5 ∷ []))
        × (run_tunnel_client tokio
              (encrypted crypto tokio schedule)
              header
              (record { conn = conn; tunnel = a })
            ≡ (err (text (server_rejected 5)), record { conn = conn'; tunnel = a₂ }))
        × (wire.sent conn'
            ≡ wire.sent conn ++ (0x05 ∷ 0x05 ∷ 0x00 ∷ 0x01 ∷ 0 ∷ 0 ∷ 0 ∷ 0 ∷ 0 ∷ 0 ∷ []))
        × Paired b' a₂
  unfolding answer run_tunnel_client
  run_tunnel_client-refused e schedule header rest a a₁ b s t conn asked p has_b has_a acc acc'
        arrived =
      let (b', a₂, t', _, sent, got, has_b', _, on_wire, _, p') =
        recv_frame-send_frame crypto laws tokio wire (5 ∷ []) rest b a₁ t s p has_b has_a acc
          (omega arith) arrived in
      let (conn', told, reply) =
        on_status-rejected tokio wire (encrypted crypto tokio schedule)
          (record { conn = conn; tunnel = a₂ }) 5 [] (omega arith) acc' in
      (a₂, b', conn', t', rw sent refl, has_b', on_wire, rw (asked, got) told, reply, p')

  -- What both sides do once the frame with the status 0 has passed.
  pub accepted_with :
      (target : Stream) (schedule : Schedule) (header rest : Bytes)
      (a a₁ b : EncryptedTunnel Stream) (s t conn : Stream)
      → Encrypted.send_frame crypto tokio header a ≡ (ok tt, a₁)
      → (f : Passed crypto laws tokio wire (0 ∷ []) rest b a₁ t s) → wire.accepting conn ≡ true
      → (conn' : Stream) × (answer (encrypted crypto tokio schedule) (ok target) b
          ≡ relay_with (encrypted crypto tokio schedule) target f.a')
        × (run_tunnel_client tokio
              (encrypted crypto tokio schedule)
              header
              (record { conn = conn; tunnel = a })
            ≡ relay tokio
                (encrypted crypto tokio schedule)
                (record { conn = conn'; tunnel = f.b' }))
        × (wire.sent conn'
            ≡ wire.sent conn ++ (0x05 ∷ 0x00 ∷ 0x00 ∷ 0x01 ∷ 0 ∷ 0 ∷ 0 ∷ 0 ∷ 0 ∷ 0 ∷ []))
        × (wire.accepting conn' ≡ true)
  unfolding answer run_tunnel_client on_status send_socks_reply reply_bytes reply_code address_code
  accepted_with target schedule header rest a a₁ b s t conn asked f acc' =
      let (conn', wrote, reply, _, _, acc) =
        wire.write_all_accepting conn (reply_bytes succeeded) acc' in
      (conn', rw f.sends refl, rw (asked, f.receives, wrote) refl, reply, acc)

  -- Where the server has connected to the target, under the same conditions: the server sends one frame and
  -- relays with the target, and the client tells the SOCKS5 client that it has succeeded and relays
  -- with it. Both relays start in step.
  pub run_tunnel_client-accepted :
      (target : Stream) (schedule : Schedule) (header rest : Bytes)
      (a a₁ b : EncryptedTunnel Stream) (s t conn : Stream)
      → Encrypted.send_frame crypto tokio header a ≡ (ok tt, a₁)
      → Paired b a₁
      → b.stream ≡ some t
      → a₁.stream ≡ some s
      → wire.accepting t ≡ true
      → wire.accepting conn ≡ true
      → wire.arrived s ≡ sealed_frame crypto (send_key b) (send_nonce b) (0 ∷ []) ++ rest
      → (a₂ : EncryptedTunnel Stream) × (b' : EncryptedTunnel Stream) × (conn' : Stream) × (answer
            (encrypted crypto tokio schedule)
            (ok target)
            b
          ≡ relay_with (encrypted crypto tokio schedule) target b')
        × (run_tunnel_client tokio
              (encrypted crypto tokio schedule)
              header
              (record { conn = conn; tunnel = a })
            ≡ relay tokio (encrypted crypto tokio schedule) (record { conn = conn'; tunnel = a₂ }))
        × (wire.sent conn'
            ≡ wire.sent conn ++ (0x05 ∷ 0x00 ∷ 0x00 ∷ 0x01 ∷ 0 ∷ 0 ∷ 0 ∷ 0 ∷ 0 ∷ 0 ∷ []))
        × Paired b' a₂
  run_tunnel_client-accepted target schedule header rest a a₁ b s t conn asked p has_b has_a acc
        acc' arrived =
      let f =
        frame_passes crypto laws tokio wire (0 ∷ []) rest b a₁ t s p has_b has_a acc (omega arith)
          arrived in
      let (conn', answers, runs, reply, _) =
        accepted_with target schedule header rest a a₁ b s t conn asked f acc' in
      (f.b', f.a', conn', answers, runs, reply, f.in_step)
