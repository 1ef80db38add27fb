-- ===== src/Tunnel/Quic/Frames.antt =====
-- A frame through a QUIC tunnel, however the stream cuts it.
use vs_vpn.Prelude.{
  cut, ℕ, zero, suc, ◌/◌, ◌%◌, ◌≤◌, ◌<◌, ◌^◌, ◌≡◌, ◌≢◌, refl, ap, sym, ◌∙◌, [], ◌∷◌, ◌++◌,
  append_assoc, append-nil, arith, Bytes, Bool, true, Option, some, length, length-append,
}
use vs_vpn.Outcome.{ok}
use vs_vpn.Std.Words.{as_u16, to_be_bytes, from_be_bytes-to_be_bytes}
use vs_vpn.Tunnel.Quic.{Quinn, fill, read_exact_quic, send_frame, recv_frame}

-- What quinn documents: a read takes at least one and at most n of the bytes that have arrived, and a
-- write to a stream that takes bytes writes all of them.
pub record QuinnWire (quinn : Quinn) : Type 0 where
  pub arrived : quinn.RecvStream → Bytes
  pub sent : quinn.SendStream → Bytes
  pub accepting : quinn.SendStream → Bool
  pub read_arrived :
      (s : quinn.RecvStream) (n : ℕ)
      → 0 < n
      → arrived s ≢ []
      → (s' : quinn.RecvStream) × (b : ℕ) × (bs : Bytes) × (quinn.read n s
          ≡ (ok (some (b ∷ bs)), s'))
        × (arrived s ≡ (b ∷ bs) ++ arrived s')
        × (suc (length bs) ≤ n)
  pub write_all_accepting :
      (s : quinn.SendStream) (bytes : Bytes)
      → accepting s ≡ true
      → (s' : quinn.SendStream) × (quinn.write_all bytes s ≡ (ok tt, s'))
        × (sent s' ≡ sent s ++ bytes)
        × (accepting s' ≡ true)

module _ (quinn : Quinn) (wire : QuinnWire quinn) where
  open quinn use {SendStream, RecvStream}

  not_nil : (bytes rest : Bytes) → 0 < length bytes → bytes ++ rest ≢ []
  not_nil [] rest h e = absurd (omega arith)
  not_nil (x ∷ bytes) rest h e = cc

  -- As many rounds as the buffer is long are enough.
  fill_arrived :
      (rounds : ℕ) (filled bytes rest : Bytes) (s : RecvStream)
      → length bytes ≤ rounds
      → wire.arrived s ≡ bytes ++ rest
      → (s' : RecvStream) × (fill quinn rounds filled (length bytes) s
          ≡ (ok (some tt, filled ++ bytes), s'))
        × (wire.arrived s' ≡ rest)
  unfolding fill
  fill_arrived rounds filled [] rest s h arrived =
      (s, ap (λ xs. (ok (some tt, xs), s)) (sym (append-nil filled)), arrived)
  fill_arrived zero filled (x ∷ bytes) rest s h arrived = absurd (omega arith)
  fill_arrived (suc rounds) filled (x ∷ bytes) rest s h arrived =
      let (s₁, b, bs, got, split, few) =
        wire.read_arrived s (suc (length bytes)) (omega arith)
          (λ e. not_nil (x ∷ bytes) rest (omega arith) (sym arrived ∙ e)) in
      let (more, p, q) =
        cut (b ∷ bs) (wire.arrived s₁) (x ∷ bytes) rest (sym arrived ∙ split) (omega arith) in
      let (s₂, run, left) =
        fill_arrived rounds (filled ++ b ∷ bs) more rest s₁
          (omega (arith, ap length p, length-append bs more)) q in
      let joined : (filled ++ b ∷ bs) ++ more ≡ filled ++ x ∷ bytes =
        append_assoc filled (b ∷ bs) more ∙ ap (λ xs. filled ++ xs) (sym p) in
      (
        s₂,
        rw got (
            ap (λ (n : ℕ). fill quinn rounds (filled ++ b ∷ bs) n s₁)
              (omega (arith, ap length p, length-append bs more))
            ∙ run
            ∙ ap (λ xs. (ok (some tt, xs), s₂)) joined),
        left,
      )

  read_exact_quic_lem :
      (n : ℕ) (bytes rest : Bytes) (s : RecvStream)
      → length bytes ≡ n
      → wire.arrived s ≡ bytes ++ rest
      → (s' : RecvStream) × (read_exact_quic quinn n s ≡ (ok (some tt, bytes), s'))
        × (wire.arrived s' ≡ rest)
  unfolding read_exact_quic
  read_exact_quic_lem n bytes rest s size arrived =
      let (s', run, left) = fill_arrived (length bytes) [] bytes rest s (omega arith) arrived in
      (s', ap (λ (k : ℕ). fill quinn k [] k s) (sym size) ∙ run, left)

  -- A frame of fewer than 65536 bytes is sent over a QUIC stream that takes bytes, and a receiver to
  -- which it has arrived, with anything behind it, returns it and leaves the rest, however many bytes
  -- each read takes; `read_exact_quic` needs no more rounds than its buffer is long.
  pub recv_frame-send_frame_quic :
      (bytes rest : Bytes) (s : SendStream) (r : RecvStream) (recv : Option RecvStream)
      (send : Option SendStream)
      → length bytes < 2 ^ 16
      → wire.accepting s ≡ true
      → wire.arrived r ≡ (to_be_bytes (length bytes) ++ bytes) ++ rest
      → (s' : SendStream) × (r' : RecvStream) × (send_frame quinn bytes
            (record { send = some s; recv = recv })
          ≡ (ok tt, record { send = some s'; recv = recv }))
        × (recv_frame quinn (record { send = send; recv = some r })
            ≡ (ok (some bytes), record { send = send; recv = some r' }))
        × (wire.sent s' ≡ wire.sent s ++ (to_be_bytes (length bytes) ++ bytes))
        × (wire.arrived r' ≡ rest)
  unfolding send_frame recv_frame to_be_bytes
  recv_frame-send_frame_quic bytes rest s r recv send h acc arrived =
      let n : ℕ = length bytes in
      let (s₁, w₁, sent₁, acc₁) = wire.write_all_accepting s (to_be_bytes (as_u16 n)) acc in
      let (s₂, w₂, sent₂, _) = wire.write_all_accepting s₁ bytes acc₁ in
      let small : as_u16 n ≡ n = omega arith in
      let (r₁, got₁, left₁) =
        read_exact_quic_lem 2 ((n / 256 % 256) ∷ (n % 256) ∷ []) (bytes ++ rest) r refl arrived in
      let (r₂, got₂, left₂) = read_exact_quic_lem n bytes rest r₁ refl left₁ in
      (
        s₂,
        r₂,
        rw (w₁, w₂) refl,
        rw (got₁, from_be_bytes-to_be_bytes n h, got₂) refl,
        sent₂
            ∙ ap (λ xs. xs ++ bytes) sent₁
            ∙ append_assoc (wire.sent s) (to_be_bytes (as_u16 n)) bytes
            ∙ ap (λ (k : ℕ). wire.sent s ++ (to_be_bytes k ++ bytes)) small,
        left₂,
      )
