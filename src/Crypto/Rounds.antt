-- ===== src/Crypto/Rounds.antt =====
-- One round of each relay loop, and the frames that rounds leave on the wire.
use vs_vpn.Prelude.{
  ℕ, ◌+◌, ◌^◌, ◌<◌, ◌≤◌, ◌≡◌, ◌≢◌, refl, [], ◌∷◌, ◌++◌, arith, Bytes, true, false, length,
}
use vs_vpn.Outcome.{ok}
use vs_vpn.Io.{Io, Wire}
use vs_vpn.Crypto.Primitives.{Suite, IsAead}
use vs_vpn.Crypto.{
  key_len, tag_len, relay_buf, seal, unseal, Relay, write_encrypted_frame, send_chunk, send_round,
  deliver, receive_round,
}
use vs_vpn.Crypto.Frames.{framed, after, seal-unseal, write_sealed, read_sealed}

-- `Frames key n wire plain m`: from counter `n` to counter `m`, the bytes `wire` are frames that
-- open under the key to the bytes `plain`.
pub data Frames (crypto : Suite) (key : Bytes) : ℕ → Bytes → Bytes → ℕ → Type 0 where
  no_more : {n : ℕ} → Frames crypto key n [] [] n
  frame :
      {n m : ℕ} {wire plain : Bytes} (ciphertext plaintext : Bytes)
      → tag_len ≤ length ciphertext
      → length ciphertext < 2 ^ 16
      → unseal crypto key n ciphertext ≡ ok plaintext
      → Frames crypto key (after n) wire plain m
      → Frames crypto key n (framed ciphertext ++ wire) (plaintext ++ plain) m

module _ (crypto : Suite) (tokio : Io) where
  open tokio use {Stream}

  send_chunk-wrote :
      (key chunk : Bytes) (r : Relay Stream) (s₁ s₂ : Stream)
      → 1 ≤ length chunk
      → write_encrypted_frame crypto tokio chunk key (record { stream = r.writer; nonce = r.nonce })
        ≡ (ok tt, record { stream = s₂; nonce = after r.nonce })
      → send_chunk crypto tokio key chunk
          (record { reader = s₁; writer = r.writer; nonce = r.nonce })
        ≡ (ok false, record { reader = s₁; writer = s₂; nonce = after r.nonce })
  unfolding send_chunk
  send_chunk-wrote key [] r s₁ s₂ h w = absurd (omega arith)
  send_chunk-wrote key (b ∷ bs) r s₁ s₂ h w = rw w

module _ (crypto : Suite) (laws : IsAead crypto) (tokio : Io) (wire : Wire tokio) where
  open tokio use {Stream}

  -- One round on a source that still has bytes: some of them leave as one frame.
  pub send_round-chunk :
      (key : Bytes) (r : Relay Stream)
      → length key ≡ key_len
      → wire.accepting r.writer ≡ true
      → wire.arrived r.reader ≢ []
      → (r' : Relay Stream) × (chunk : Bytes) × (ciphertext : Bytes) × (send_round crypto tokio key
            r
          ≡ (ok false, r'))
        × (wire.arrived r.reader ≡ chunk ++ wire.arrived r'.reader)
        × (1 ≤ length chunk)
        × (length ciphertext ≡ length chunk + tag_len)
        × (length chunk ≤ relay_buf)
        × (unseal crypto key r.nonce ciphertext ≡ ok chunk)
        × (wire.sent r'.writer ≡ wire.sent r.writer ++ framed ciphertext)
        × (wire.accepting r'.writer ≡ true)
        × (wire.closed r'.reader ≡ wire.closed r.reader)
        × (r'.nonce ≡ after r.nonce)
        × (wire.arrived r'.writer ≡ wire.arrived r.writer)
        × (wire.sent r'.reader ≡ wire.sent r.reader)
        × (wire.accepting r'.reader ≡ wire.accepting r.reader)
        × (seal crypto key r.nonce chunk ≡ ok ciphertext)
  unfolding send_round
  send_round-chunk key r hk accepting more =
      let (s₁, chunk, got, split, some_, few, closed₁, sent₁, acc₁) =
        wire.read_arrived r.reader relay_buf (omega arith) more in
      let (ct, sealed, size, opened) = seal-unseal crypto laws key chunk r.nonce hk (omega arith) in
      let (s₂, wrote, sent₂, acc₂, arrived₂, _) =
        write_sealed crypto tokio wire chunk key (record { stream = r.writer; nonce = r.nonce }) ct
          (omega arith) sealed accepting in
      (
        record { reader = s₁; writer = s₂; nonce = after r.nonce },
        chunk,
        ct,
        rw got (send_chunk-wrote crypto tokio key chunk r s₁ s₂ some_ wrote),
        split,
        some_,
        size,
        few,
        opened,
        sent₂,
        acc₂,
        closed₁,
        refl,
        arrived₂,
        sent₁,
        acc₁,
        sealed,
      )

  -- One round on a reader with a whole frame: what it holds is written.
  pub receive_round-frame :
      (key : Bytes) (r : Relay Stream) (ciphertext plaintext more : Bytes)
      → tag_len ≤ length ciphertext
      → length ciphertext < 2 ^ 16
      → unseal crypto key r.nonce ciphertext ≡ ok plaintext
      → wire.arrived r.reader ≡ framed ciphertext ++ more
      → wire.accepting r.writer ≡ true
      → (r' : Relay Stream) × (receive_round crypto tokio key r ≡ (ok false, r'))
        × (wire.arrived r'.reader ≡ more)
        × (wire.sent r'.writer ≡ wire.sent r.writer ++ plaintext)
        × (r'.nonce ≡ after r.nonce)
        × (wire.accepting r'.writer ≡ true)
        × (wire.closed r'.reader ≡ wire.closed r.reader)
        × (wire.arrived r'.writer ≡ wire.arrived r.writer)
        × (wire.sent r'.reader ≡ wire.sent r.reader)
        × (wire.accepting r'.reader ≡ wire.accepting r.reader)
  unfolding receive_round deliver
  receive_round-frame key r ct pt more tagged short opened arrived acc =
      let (s₁, got, a₁, c₁, t₁, p₁) =
        read_sealed crypto tokio wire key (record { stream = r.reader; nonce = r.nonce }) ct pt more
          tagged short opened arrived in
      let (s₂, wrote, sent₂, arrived₂, _, acc₂) = wire.write_all_accepting r.writer pt acc in
      (
        record { reader = s₁; writer = s₂; nonce = after r.nonce },
        rw (got, wrote),
        a₁,
        sent₂,
        refl,
        acc₂,
        c₁,
        arrived₂,
        t₁,
        p₁,
      )
