-- ===== src/Crypto.antt =====
-- feature/tunnel/tcp-encrypted/src/crypto.rs: the key exchange, encrypted frames and the two relay
-- loops. The cipher (ChaCha20-Poly1305), HKDF and tokio are parameters.
pub mod Primitives
pub mod Frames
pub mod Toy
mod Tests
mod Inline
pub mod Handshake
pub mod Counters
pub mod Nonces
pub mod Reading
pub mod Rounds
pub mod Stream
pub mod Untrusted
use vs_vpn.Prelude.{
  ℕ, zero, suc, ◌+◌, ◌-◌, ◌*◌, ◌%◌, ◌^◌, [], ◌∷◌, ◌++◌, Bytes, Bool, true, false, Option, none,
  some, length, take, drop, get_or, replicate, ltb, ◌==◌, if◌then◌else◌,
}
use vs_vpn.Outcome.{
  Message, Error, ErrorKind, Outcome, ok, err, panic, io, text, other, unexpected_eof, ok_or,
  hkdf_expand, invalid_key, plaintext_too_large, encryption_error, frame_too_short,
  decryption_error, operation_read, operation_write,
}
use vs_vpn.Act.{Act, pure, fail, lift, on, map_err, relabel, repeat, ◌>>=◌, ◌>>◌}
use vs_vpn.Io.{Io}
use vs_vpn.Std.Words.{as_u16, to_be_bytes, from_be_bytes, to_le_bytes}
use vs_vpn.Crypto.Primitives.{Suite}

abbrev pub key_len : ℕ
key_len = 32

abbrev pub nonce_len : ℕ
nonce_len = 12

abbrev pub tag_len : ℕ
tag_len = 16

-- `u16::MAX as usize - TAG_LEN`
abbrev pub max_plaintext : ℕ
max_plaintext = 65535 - tag_len

abbrev pub relay_buf : ℕ
relay_buf = 16384

-- b"vs-vpn-tunnel-v1"
abbrev pub hkdf_info : Bytes
hkdf_info =
    b'v' ∷ b's' ∷ b'-' ∷ b'v' ∷ b'p' ∷ b'n' ∷ b'-' ∷ b't' ∷ b'u' ∷ b'n' ∷ b'n' ∷ b'e' ∷ b'l' ∷ b'-'
    ∷ b'v' ∷ b'1' ∷ []

-- `io_err`
abbrev pub io_err : Message → Error
io_err m = io other m

-- The twelve bytes of a nonce: the counter in eight, and four zeros.
unfoldable pub full_nonce : ℕ → Bytes
full_nonce counter = to_le_bytes counter ++ replicate 4 0

module _ (crypto : Suite) where
  -- The client's key and the server's key.
  unfoldable pub derive_session_keys :
      (psk client_nonce server_nonce : Bytes) → Outcome (Bytes × Bytes)
  derive_session_keys psk client_nonce server_nonce =
      elim (crypto.expand psk (hkdf_info ++ client_nonce ++ server_nonce) 64) [
        | none ↦ err (io_err hkdf_expand)
        | some okm ↦ ok (take key_len okm, drop key_len okm)
      ]

  -- The cipher under a key and a counter, with the errors of the source.
  unfoldable pub seal : (key : Bytes) (counter : ℕ) (plaintext : Bytes) → Outcome Bytes
  seal key counter plaintext = elim (crypto.new_from_slice key) [
    | none ↦ err (io_err invalid_key)
    | some cipher ↦
        ok_or (crypto.encrypt cipher (full_nonce counter) plaintext)
          (io_err (encryption_error counter))
  ]

  unfoldable pub unseal : (key : Bytes) (counter : ℕ) (ciphertext : Bytes) → Outcome Bytes
  unseal key counter ciphertext = elim (crypto.new_from_slice key) [
    | none ↦ err (io_err invalid_key)
    | some cipher ↦
        ok_or (crypto.decrypt cipher (full_nonce counter) ciphertext)
          (io_err (decryption_error counter))
  ]

-- A stream and the counter of one direction.
pub record Channel (Stream : Type 0) : Type 0 where
  pub stream : Stream
  pub nonce : ℕ

abbrev pub on_stream : {Stream A : Type 0} → Act Stream A → Act (Channel Stream) A
on_stream = on (λ c. c.stream) (λ s c. record c { stream = s })

-- `*nonce_counter += 1` on a u64
abbrev pub count_frame : {Stream : Type 0} → Act (Channel Stream) (Unit {0})
count_frame c = (ok tt, record c { nonce = (c.nonce + 1) % 2 ^ 64 })

-- An end of the stream before the length is whole means that there are no more frames.
abbrev pub ended : Outcome Bytes → Outcome (Option Bytes)
ended (ok bytes) = ok (some bytes)
ended (err (io unexpected_eof m)) = ok none
ended (err e) = err e
ended panic = panic

-- `match reader.read_exact(&mut len_buf).await`, as the crypto and the plain tunnel write it
abbrev pub length_or_end : (tokio : Io) → Act tokio.Stream (Option Bytes)
length_or_end tokio s = let (r, s') = tokio.read_exact 2 s in (ended r, s')

-- The reader and the writer of a relay loop, and its counter.
pub record Relay (Stream : Type 0) : Type 0 where
  pub reader : Stream
  pub writer : Stream
  pub nonce : ℕ

abbrev pub on_reader : {Stream A : Type 0} → Act (Channel Stream) A → Act (Relay Stream) A
on_reader =
    on (λ r. record { stream = r.reader; nonce = r.nonce })
      (λ c r. record r { reader = c.stream; nonce = c.nonce })

abbrev pub on_writer : {Stream A : Type 0} → Act (Channel Stream) A → Act (Relay Stream) A
on_writer =
    on (λ r. record { stream = r.writer; nonce = r.nonce })
      (λ c r. record r { writer = c.stream; nonce = c.nonce })

module _ (crypto : Suite) (tokio : Io) where
  open tokio use {Stream, read, read_exact, write_all}

  -- `random` is what `rand::rng().fill_bytes` fills in.
  unfoldable pub secure_handshake :
      (psk random : Bytes) (is_client : Bool) → Act Stream (Bytes × Bytes)
  secure_handshake psk random true = do
    write_all random
    server_nonce ← read_exact key_len
    lift (derive_session_keys crypto psk random server_nonce)
  secure_handshake psk random false = do
    client_nonce ← read_exact key_len
    write_all random
    lift (derive_session_keys crypto psk client_nonce random)

  unfoldable pub write_encrypted_frame : (plaintext key : Bytes) → Act (Channel Stream) (Unit {0})
  write_encrypted_frame plaintext key c =
      if ltb max_plaintext (length plaintext)
      then (err (io_err (plaintext_too_large (length plaintext))), c)
      else (do
        ciphertext ← lift (seal crypto key c.nonce plaintext)
        on_stream (write_all (to_be_bytes (as_u16 (length ciphertext))))
        on_stream (write_all ciphertext)
        count_frame)
          c

  -- The frame behind its length.
  unfoldable pub read_frame_body :
      (key : Bytes) → Option Bytes → Act (Channel Stream) (Option Bytes)
  read_frame_body key none c = (ok none, c)
  read_frame_body key (some len_buf) c =
      let frame_len = from_be_bytes (get_or len_buf 0 0) (get_or len_buf 1 0) in
      if ltb frame_len tag_len
      then (err (io_err (frame_too_short frame_len)), c)
      else (do
        ciphertext ← on_stream (read_exact frame_len)
        plaintext ← lift (unseal crypto key c.nonce ciphertext)
        count_frame
        pure (some plaintext))
          c

  unfoldable pub read_encrypted_frame : (key : Bytes) → Act (Channel Stream) (Option Bytes)
  read_encrypted_frame key = do start ← on_stream (length_or_end tokio); read_frame_body key start

  unfoldable pub send_chunk : (key : Bytes) → Bytes → Act (Relay Stream) Bool
  send_chunk key [] = pure true
  send_chunk key (b ∷ bs) = do
    map_err (relabel operation_write) (on_writer (write_encrypted_frame (b ∷ bs) key))
    pure false

  -- One round of a loop answers `true` where the source breaks out of it.
  unfoldable pub send_round : (key : Bytes) → Act (Relay Stream) Bool
  send_round key = do
    chunk ← map_err (relabel operation_read) (on_reader (on_stream (read relay_buf)))
    send_chunk key chunk

  unfoldable pub relay_plain_to_encrypted :
      ℕ → (key : Bytes) → Act (Relay Stream) (Option (Unit {0}))
  relay_plain_to_encrypted rounds key = repeat rounds (send_round key)

  unfoldable pub deliver : Option Bytes → Act (Relay Stream) Bool
  deliver none = pure true
  deliver (some plain) = do
    map_err (relabel operation_write) (on_writer (on_stream (write_all plain)))
    pure false

  unfoldable pub receive_round : (key : Bytes) → Act (Relay Stream) Bool
  receive_round key = do
    frame ← map_err (relabel operation_read) (on_reader (read_encrypted_frame key))
    deliver frame

  unfoldable pub relay_encrypted_to_plain :
      ℕ → (key : Bytes) → Act (Relay Stream) (Option (Unit {0}))
  relay_encrypted_to_plain rounds key = repeat rounds (receive_round key)
