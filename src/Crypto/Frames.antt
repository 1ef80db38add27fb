-- ===== src/Crypto/Frames.antt =====
-- One encrypted frame, written at one end and read at the other.
use vs_vpn.Prelude.{
  ℕ, ◌+◌, ◌/◌, ◌%◌, ◌^◌, ◌<◌, ◌≤◌, ◌≡◌, refl, ◌∙◌, [], ◌∷◌, ◌++◌, append_assoc, arith, Bytes, true,
  none, some, length, le→ltb,
}
use vs_vpn.Outcome.{Outcome, ok, err, panic}
use vs_vpn.Io.{Io, Wire}
use vs_vpn.Std.Words.{as_u16, to_be_bytes, from_be_bytes, from_be_bytes-to_be_bytes, to_le_bytes}
use vs_vpn.Crypto.Primitives.{Suite, IsAead}
use vs_vpn.Crypto.{
  key_len, tag_len, max_plaintext, full_nonce, seal, unseal, Channel, write_encrypted_frame,
  read_frame_body, read_encrypted_frame,
}

-- The bytes of a frame on the wire.
abbrev pub framed : Bytes → Bytes
framed ciphertext = to_be_bytes (as_u16 (length ciphertext)) ++ ciphertext

pub length-framed : (ciphertext : Bytes) → length (framed ciphertext) ≡ 2 + length ciphertext
unfolding to_be_bytes
length-framed ciphertext = omega arith

-- The counter after one more frame.
abbrev pub after : ℕ → ℕ
after n = (n + 1) % 2 ^ 64

-- The bytes that a text makes on the wire under a key and a counter (none where it cannot be sealed).
abbrev sealed_bytes : Outcome Bytes → Bytes
sealed_bytes (ok ciphertext) = framed ciphertext
sealed_bytes (err e) = []
sealed_bytes panic = []

unfoldable pub sealed_frame : Suite → (key : Bytes) (counter : ℕ) (plaintext : Bytes) → Bytes
sealed_frame crypto key counter plaintext = sealed_bytes (seal crypto key counter plaintext)

pub sealed_frame-eq :
    (crypto : Suite) (key plaintext ciphertext : Bytes) (n : ℕ)
    → seal crypto key n plaintext ≡ ok ciphertext
    → sealed_frame crypto key n plaintext ≡ framed ciphertext
unfolding sealed_frame
sealed_frame-eq crypto key plaintext ct n h = rw h

length-full_nonce : (n : ℕ) → length (full_nonce n) ≡ 12
unfolding full_nonce to_le_bytes
length-full_nonce n = refl

module _ (crypto : Suite) (laws : IsAead crypto) where
  -- Under a whole key, a text that is not too long is sealed, and the seal opens to it.
  pub seal-unseal :
      (key plaintext : Bytes) (n : ℕ)
      → length key ≡ key_len
      → length plaintext ≤ max_plaintext
      → (ciphertext : Bytes) × (seal crypto key n plaintext ≡ ok ciphertext)
        × (length ciphertext ≡ length plaintext + tag_len)
        × (unseal crypto key n ciphertext ≡ ok plaintext)
  unfolding seal unseal
  seal-unseal key plaintext n hk hp =
      let (cipher, made) = laws.new_from_slice_32 key hk in
      let (ct, sealed, size, opened) =
        laws.encrypt_decrypt cipher (full_nonce n) plaintext (length-full_nonce n) (omega arith) in
      (ct, rw (made, seal, sealed), size, rw (made, unseal, opened))

module _ (crypto : Suite) (tokio : Io) (wire : Wire tokio) where
  open tokio use {Stream}

  -- Two writes in a row.
  pub write_sealed :
      (plaintext key : Bytes) (c : Channel Stream) (ciphertext : Bytes)
      → length plaintext ≤ max_plaintext
      → seal crypto key c.nonce plaintext ≡ ok ciphertext
      → wire.accepting c.stream ≡ true
      → (s' : Stream) × (write_encrypted_frame crypto tokio plaintext key c
          ≡ (ok tt, record { stream = s'; nonce = after c.nonce }))
        × (wire.sent s' ≡ wire.sent c.stream ++ framed ciphertext)
        × (wire.accepting s' ≡ true)
        × (wire.arrived s' ≡ wire.arrived c.stream)
        × (wire.closed s' ≡ wire.closed c.stream)
  unfolding write_encrypted_frame
  write_sealed plaintext key c ct fits sealed accepting =
      let (s₁, w₁, sent₁, arrived₁, closed₁, acc₁) =
        wire.write_all_accepting c.stream (to_be_bytes (as_u16 (length ct))) accepting in
      let (s₂, w₂, sent₂, arrived₂, closed₂, acc₂) = wire.write_all_accepting s₁ ct acc₁ in
      (
        s₂,
        rw (le→ltb max_plaintext (length plaintext) fits, sealed, w₁, w₂),
        rw (sent₂, sent₁) (append_assoc (wire.sent c.stream) _ ct),
        acc₂,
        arrived₂ ∙ arrived₁,
        closed₂ ∙ closed₁,
      )

  -- A frame at the front of what has arrived is read whole and opened.
  pub read_sealed :
      (key : Bytes) (c : Channel Stream) (ciphertext plaintext rest : Bytes)
      → tag_len ≤ length ciphertext
      → length ciphertext < 2 ^ 16
      → unseal crypto key c.nonce ciphertext ≡ ok plaintext
      → wire.arrived c.stream ≡ framed ciphertext ++ rest
      → (s' : Stream) × (read_encrypted_frame crypto tokio key c
          ≡ (ok (some plaintext), record { stream = s'; nonce = after c.nonce }))
        × (wire.arrived s' ≡ rest)
        × (wire.closed s' ≡ wire.closed c.stream)
        × (wire.sent s' ≡ wire.sent c.stream)
        × (wire.accepting s' ≡ wire.accepting c.stream)
  unfolding read_encrypted_frame read_frame_body to_be_bytes
  read_sealed key c ct plaintext rest tagged short opened arrived =
      let n : ℕ = length ct % 2 ^ 16 in
      let whole : from_be_bytes (n / 256 % 256) (n % 256) ≡ length ct =
        from_be_bytes-to_be_bytes n (omega arith) ∙ omega arith in
      let (s₁, r₁, a₁, t₁, c₁, p₁) =
        wire.read_exact_arrived c.stream ((n / 256 % 256) ∷ (n % 256) ∷ []) (ct ++ rest) arrived in
      let (s₂, r₂, a₂, t₂, c₂, p₂) = wire.read_exact_arrived s₁ ct rest a₁ in
      (
        s₂,
        rw (r₁, whole, le→ltb (length ct) tag_len tagged, r₂, opened),
        a₂,
        c₂ ∙ c₁,
        t₂ ∙ t₁,
        p₂ ∙ p₁,
      )

  -- At the end of a closed stream there is no frame, and nothing changes the counter.
  pub read_encrypted_frame-eof :
      (key : Bytes) (c : Channel Stream)
      → wire.closed c.stream ≡ true
      → length (wire.arrived c.stream) < 2
      → (s' : Stream) × (read_encrypted_frame crypto tokio key c
          ≡ (ok none, record c { stream = s' }))
  unfolding read_encrypted_frame read_frame_body
  read_encrypted_frame-eof key c closed short =
      let (s', m, r) = wire.read_exact_eof c.stream 2 closed short in (s', rw r)
