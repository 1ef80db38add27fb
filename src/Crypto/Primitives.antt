-- ===== src/Crypto/Primitives.antt =====
-- The cryptography that the source takes from other crates, as parameters, and what those document.
use vs_vpn.Prelude.{ℕ, ◌+◌, ◌*◌, ◌^◌, ◌≤◌, ◌<◌, ◌≡◌, Bytes, Option, some, length}

-- `ChaCha20Poly1305::new_from_slice`, `encrypt`, `decrypt` (key or cipher, nonce, text), and
-- `Hkdf::<Sha256>::new(None, psk).expand(info, okm)` with the length of `okm`.
pub record Suite : Type 1 where
  pub Cipher : Type 0
  pub new_from_slice : Bytes → Option Cipher
  pub encrypt : Cipher → Bytes → Bytes → Option Bytes
  pub decrypt : Cipher → Bytes → Bytes → Option Bytes
  pub expand : Bytes → Bytes → ℕ → Option Bytes

-- A key of 32 bytes makes a cipher; encryption adds a tag of 16 bytes and decryption under the same
-- nonce takes it off; `expand` fills buffers of up to 255 digests.
pub record IsAead (crypto : Suite) : Type 0 where
  pub new_from_slice_32 :
      (key : Bytes) → length key ≡ 32 → (c : crypto.Cipher) × (crypto.new_from_slice key ≡ some c)
  pub encrypt_decrypt :
      (c : crypto.Cipher) (nonce plaintext : Bytes)
      → length nonce ≡ 12
      → length plaintext < 2 ^ 32
      → (ciphertext : Bytes) × (crypto.encrypt c nonce plaintext ≡ some ciphertext)
        × (length ciphertext ≡ length plaintext + 16)
        × (crypto.decrypt c nonce ciphertext ≡ some plaintext)
  pub expand_length :
      (psk info : Bytes) (n : ℕ)
      → n ≤ 255 * 32
      → (okm : Bytes) × (crypto.expand psk info n ≡ some okm) × (length okm ≡ n)
