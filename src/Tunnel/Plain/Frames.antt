-- ===== src/Tunnel/Plain/Frames.antt =====
-- A frame through a plain tunnel.
use vs_vpn.Prelude.{
  ℕ, ◌/◌, ◌%◌, ◌^◌, ◌<◌, ◌≤◌, ◌≡◌, refl, ap, sym, ◌∙◌, [], ◌∷◌, ◌++◌, append_assoc, arith, Bytes,
  true, some, length, take, drop, length-take, take-append-drop,
}
use vs_vpn.Outcome.{ok}
use vs_vpn.Io.{Io, Wire}
use vs_vpn.Std.Words.{as_u16, to_be_bytes, from_be_bytes-to_be_bytes}
use vs_vpn.Tunnel.Plain.{send_frame, recv_frame, frame_behind}

module _ (tokio : Io) (wire : Wire tokio) where
  open tokio use {Stream}

  -- A frame is its length modulo 2 ^ 16 and all of its bytes.
  send_frame_lem :
      (bytes : Bytes) (s : Stream)
      → wire.accepting s ≡ true
      → (s' : Stream) × (send_frame tokio bytes (record { stream = some s })
          ≡ (ok tt, record { stream = some s' }))
        × (wire.sent s' ≡ wire.sent s ++ (to_be_bytes (as_u16 (length bytes)) ++ bytes))
  unfolding send_frame
  send_frame_lem bytes s acc =
      let (s₁, w₁, sent₁, _, _, acc₁) =
        wire.write_all_accepting s (to_be_bytes (as_u16 (length bytes))) acc in
      let (s₂, w₂, sent₂, _, _, _) = wire.write_all_accepting s₁ bytes acc₁ in
      (s₂, rw (w₁, w₂), rw (sent₂, sent₁) (append_assoc (wire.sent s) _ bytes))

  -- The reader takes as many bytes as the length says.
  recv_frame_lem :
      (n : ℕ) (bytes rest : Bytes) (t : Stream)
      → n < 2 ^ 16
      → length bytes ≡ n
      → wire.arrived t ≡ to_be_bytes n ++ (bytes ++ rest)
      → (t' : Stream) × (recv_frame tokio (record { stream = some t })
          ≡ (ok (some bytes), record { stream = some t' }))
        × (wire.arrived t' ≡ rest)
  unfolding recv_frame frame_behind to_be_bytes
  recv_frame_lem n bytes rest t h size arrived =
      let (t₁, r₁, a₁, _, _, _) =
        wire.read_exact_arrived t ((n / 256 % 256) ∷ (n % 256) ∷ []) (bytes ++ rest) arrived in
      let (t₂, r₂, a₂, _, _, _) = wire.read_exact_arrived t₁ bytes rest a₁ in
      (t₂, rw (r₁, from_be_bytes-to_be_bytes n h, ← size, r₂), a₂)

  -- Every frame of fewer than 65536 bytes is sent with its length, over a stream that takes what
  -- is written, and a receiver to which it has arrived returns it as it was, with what follows it
  -- left on the stream.
  pub recv_frame-send_frame_plain :
      (bytes rest : Bytes) (s t : Stream)
      → length bytes < 2 ^ 16
      → wire.accepting s ≡ true
      → wire.arrived t ≡ (to_be_bytes (length bytes) ++ bytes) ++ rest
      → (s' : Stream) × (t' : Stream) × (send_frame tokio bytes (record { stream = some s })
          ≡ (ok tt, record { stream = some s' }))
        × (recv_frame tokio (record { stream = some t })
            ≡ (ok (some bytes), record { stream = some t' }))
        × (wire.sent s' ≡ wire.sent s ++ (to_be_bytes (length bytes) ++ bytes))
        × (wire.arrived t' ≡ rest)
  recv_frame-send_frame_plain bytes rest s t h acc arrived =
      let (s', wrote, sent) = send_frame_lem bytes s acc in
      let (t', got, left) =
        recv_frame_lem (length bytes) bytes rest t h refl
          (arrived ∙ append_assoc (to_be_bytes (length bytes)) bytes rest) in
      (
        s',
        t',
        wrote,
        got,
        sent ∙ ap (λ (n : ℕ). wire.sent s ++ (to_be_bytes n ++ bytes)) (omega arith),
        left,
      )

  -- A frame of 65536 bytes or more is sent without an error, over a stream that takes what is
  -- written, with its length modulo 65536: a receiver to which it has arrived takes only that
  -- many of its bytes, and what is left of it stands where the next frame is looked for.
  pub recv_frame-send_frame_long :
      (bytes rest : Bytes) (s t : Stream)
      → 2 ^ 16 ≤ length bytes
      → wire.accepting s ≡ true
      → wire.arrived t ≡ (to_be_bytes (length bytes % 2 ^ 16) ++ bytes) ++ rest
      → (s' : Stream) × (t' : Stream) × (send_frame tokio bytes (record { stream = some s })
          ≡ (ok tt, record { stream = some s' }))
        × (recv_frame tokio (record { stream = some t })
            ≡ (ok (some (take (length bytes % 2 ^ 16) bytes)), record { stream = some t' }))
        × (wire.sent s' ≡ wire.sent s ++ (to_be_bytes (length bytes % 2 ^ 16) ++ bytes))
        × (wire.arrived t' ≡ drop (length bytes % 2 ^ 16) bytes ++ rest)
  recv_frame-send_frame_long bytes rest s t h acc arrived =
      let n : ℕ = length bytes % 2 ^ 16 in
      let (s', wrote, sent) = send_frame_lem bytes s acc in
      let (t', got, left) =
        recv_frame_lem n (take n bytes) (drop n bytes ++ rest) t (omega arith)
          (length-take n bytes (omega arith))
          (arrived
            ∙ append_assoc (to_be_bytes n) bytes rest
            ∙ ap (λ xs. to_be_bytes n ++ (xs ++ rest)) (sym (take-append-drop n bytes))
            ∙ ap (λ xs. to_be_bytes n ++ xs) (append_assoc (take n bytes) (drop n bytes) rest)) in
      (s', t', wrote, got, sent, left)
