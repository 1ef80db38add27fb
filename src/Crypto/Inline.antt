-- ===== src/Crypto/Inline.antt =====
-- The tests inside feature/tunnel/tcp-encrypted/src/crypto.rs as programs, over a pipe in memory, and
-- their runs with a stand-in for the cryptography that looks at key and nonce.
use vs_vpn.Prelude.{
  ℕ, ◌+◌, ◌-◌, ◌<◌, ◌≡◌, refl, ap, [], ◌∷◌, Bytes, List, true, false, not, none, some, length,
  replicate, ◌==◌, lt→ltb, length-replicate, arith,
}
use vs_vpn.Outcome.{Outcome, ok, ◌>>=◌, ◌>>◌}
use vs_vpn.Std.Asserts.{codes, equal_bytes, assert, is_err, unwrap, unwrap_some, completed}
use vs_vpn.Std.Words.{to_be_bytes, as_u16, to_le_bytes, from_be_bytes}
use vs_vpn.Io.Pipe.{End, holding, pipe, pull}
use vs_vpn.Crypto.Primitives.{Suite}
use vs_vpn.Crypto.Toy.{counting, keyed}
use vs_vpn.Crypto.{
  key_len, tag_len, max_plaintext, Channel, derive_session_keys, secure_handshake, seal, unseal,
  full_nonce, write_encrypted_frame, read_frame_body, read_encrypted_frame,
}

-- An end of a `duplex` at which these bytes have arrived, with a counter of 0.
abbrev channel : Bytes → Channel End
channel bytes = record { stream = holding bytes; nonce = 0 }

-- `generate_psk`, on the state of the random generator
unfoldable generate_psk : {Rng : Type 0} → (fill_bytes : ℕ → Rng → Bytes × Rng) → Rng → Bytes × Rng
generate_psk fill_bytes rng = fill_bytes key_len rng

module _ {Rng : Type 0} (fill_bytes : ℕ → Rng → Bytes × Rng) where
  unfoldable test_generate_psk_length : Rng → Outcome (Unit {0})
  test_generate_psk_length rng =
      let (psk, _) = generate_psk fill_bytes rng in assert (length psk == key_len)

  unfoldable test_generate_psk_random : Rng → Outcome (Unit {0})
  test_generate_psk_random rng =
      let (psk1, rng₁) = generate_psk fill_bytes rng in
      let (psk2, _) = generate_psk fill_bytes rng₁ in assert (not (equal_bytes psk1 psk2))

module _ (crypto : Suite) (psk : Bytes) where
  abbrev zeros : Bytes
  zeros = replicate key_len 0

  unfoldable test_derive_session_keys_different : Outcome (Unit {0})
  test_derive_session_keys_different = do
    (ck, sk) ←
        unwrap (derive_session_keys crypto psk (replicate key_len 0xaa) (replicate key_len 0x55))
    assert (not (equal_bytes ck sk))
    assert (length ck == key_len)
    assert (length sk == key_len)

  unfoldable test_encrypt_decrypt_roundtrip : Outcome (Unit {0})
  test_encrypt_decrypt_roundtrip = do
    let plaintext = codes "Hello, secure tunnel!"
    (ck, _) ← unwrap (derive_session_keys crypto psk zeros zeros)
    (_, writer) ← completed (write_encrypted_frame crypto pipe plaintext ck (channel []))
    (decrypted, _) ← completed (read_encrypted_frame crypto pipe ck (channel writer.stream.sent))
    decrypted ← unwrap_some decrypted
    assert (equal_bytes decrypted plaintext)

  unfoldable test_derive_session_keys_deterministic : Outcome (Unit {0})
  test_derive_session_keys_deterministic = do
    let psk42 = replicate key_len 0x42
    let cn = replicate key_len 0x01
    let sn = replicate key_len 0x02
    (ck1, sk1) ← unwrap (derive_session_keys crypto psk42 cn sn)
    (ck2, sk2) ← unwrap (derive_session_keys crypto psk42 cn sn)
    assert (equal_bytes ck1 ck2)
    assert (equal_bytes sk1 sk2)

  unfoldable test_encrypt_decrypt_empty_plaintext : Outcome (Unit {0})
  test_encrypt_decrypt_empty_plaintext = do
    (ck, _) ← unwrap (derive_session_keys crypto psk zeros zeros)
    (_, writer) ← completed (write_encrypted_frame crypto pipe [] ck (channel []))
    (decrypted, _) ← completed (read_encrypted_frame crypto pipe ck (channel writer.stream.sent))
    decrypted ← unwrap_some decrypted
    assert (length decrypted == 0)

  -- The task that writes, and the loop that reads; the two counters run on from 0.
  unfoldable write_messages : (ck : Bytes) → List Bytes → Channel End → Outcome (Channel End)
  write_messages ck [] writer = ok writer
  write_messages ck (msg ∷ more) writer = do
    (_, writer) ← completed (write_encrypted_frame crypto pipe msg ck writer)
    write_messages ck more writer

  unfoldable read_messages : (ck : Bytes) → List Bytes → Channel End → Outcome (Unit {0})
  read_messages ck [] reader = ok tt
  read_messages ck (msg ∷ more) reader = do
    (plain, reader) ← completed (read_encrypted_frame crypto pipe ck reader)
    plain ← unwrap_some plain
    assert (equal_bytes plain msg)
    read_messages ck more reader

  abbrev messages : List Bytes
  messages =
      codes "message 0"
      ∷ codes "message 1"
      ∷ codes "message 2"
      ∷ codes "message 3"
      ∷ codes "message 4"
      ∷ []

  unfoldable test_multiple_frames_nonce_progression : Outcome (Unit {0})
  unfolding write_messages read_messages
  test_multiple_frames_nonce_progression = do
    (ck, _) ← unwrap (derive_session_keys crypto psk zeros zeros)
    writer ← write_messages ck messages (channel [])
    read_messages ck messages (channel writer.stream.sent)

  -- The two sides meet: what each has written has arrived at the other when it reads.
  unfoldable test_secure_handshake_both_sides :
      (client_random server_random : Bytes) → Outcome (Unit {0})
  test_secure_handshake_both_sides client_random server_random = do
    ((ck_client, sk_client), _) ←
        completed (secure_handshake crypto pipe psk client_random true (holding server_random))
    ((ck_server, sk_server), _) ←
        completed (secure_handshake crypto pipe psk server_random false (holding client_random))
    assert (equal_bytes ck_client ck_server)
    assert (equal_bytes sk_client sk_server)
    assert (not (equal_bytes ck_client sk_client))

  unfoldable test_read_frame_eof : Outcome (Unit {0})
  test_read_frame_eof = do
    (result, _) ← completed (read_encrypted_frame crypto pipe zeros (channel []))
    assert (elim result [ none ↦ true | some frame ↦ false ])

  unfoldable test_write_frame_too_large : Outcome (Unit {0})
  test_write_frame_too_large = assert (
      is_err
        (write_encrypted_frame crypto pipe (replicate (max_plaintext + 1) 0) zeros (channel [])).0)

  unfoldable test_read_frame_too_short : Outcome (Unit {0})
  test_read_frame_too_short = assert (
      is_err
        (read_encrypted_frame crypto pipe zeros (channel (to_be_bytes (as_u16 (tag_len - 1))))).0)

  unfoldable test_encrypt_decrypt_with_wrong_key : Outcome (Unit {0})
  test_encrypt_decrypt_with_wrong_key = do
    (ck, _) ← unwrap (derive_session_keys crypto psk zeros zeros)
    (_, writer) ← completed (write_encrypted_frame crypto pipe (codes "secret") ck (channel []))
    assert (
        is_err
          (read_encrypted_frame crypto pipe (replicate key_len 0xff)
            (channel writer.stream.sent)).0)

  -- Both tasks, with what the other one writes in the order of the exchange.
  unfoldable test_secure_handshake_then_encrypted_exchange :
      (client_random server_random : Bytes) → Outcome (Unit {0})
  test_secure_handshake_then_encrypted_exchange client_random server_random = do
    ((cck, csk), _) ←
        completed (secure_handshake crypto pipe psk client_random true (holding server_random))
    ((sck, ssk), _) ←
        completed (secure_handshake crypto pipe psk server_random false (holding client_random))
    (_, client) ← completed (write_encrypted_frame crypto pipe (codes "ping") cck (channel []))
    (req, _) ← completed (read_encrypted_frame crypto pipe sck (channel client.stream.sent))
    req ← unwrap_some req
    assert (equal_bytes req (codes "ping"))
    (_, server) ← completed (write_encrypted_frame crypto pipe (codes "pong") ssk (channel []))
    (reply, _) ← completed (read_encrypted_frame crypto pipe csk (channel server.stream.sent))
    reply ← unwrap_some reply
    assert (equal_bytes reply (codes "pong"))
    assert (equal_bytes cck sck)
    assert (equal_bytes csk ssk)
    assert (not (equal_bytes cck csk))

-- A generator that counts
abbrev counter : ℕ → ℕ → Bytes × ℕ
counter n rng = (counting n rng, rng + n)

abbrev psk : Bytes
psk = replicate key_len 9

-- All that a run of these programs calls.
calls : ℕ
unfolding derive_session_keys write_encrypted_frame seal full_nonce to_le_bytes to_be_bytes
    read_encrypted_frame read_frame_body unseal from_be_bytes pull secure_handshake
calls = 0

keys_are_made :
    (test_generate_psk_length counter 0 ≡ ok tt)
    × (test_generate_psk_random counter 0 ≡ ok tt)
    × (test_derive_session_keys_different keyed psk ≡ ok tt)
    × (test_derive_session_keys_deterministic keyed psk ≡ ok tt)
unfolding test_generate_psk_length test_generate_psk_random generate_psk
    test_derive_session_keys_different test_derive_session_keys_deterministic calls
keys_are_made = (refl, refl, refl, refl)

frames_come_back :
    (test_encrypt_decrypt_roundtrip keyed psk ≡ ok tt)
    × (test_encrypt_decrypt_empty_plaintext keyed psk ≡ ok tt)
    × (test_multiple_frames_nonce_progression keyed psk ≡ ok tt)
unfolding test_encrypt_decrypt_roundtrip test_encrypt_decrypt_empty_plaintext
    test_multiple_frames_nonce_progression calls
frames_come_back = (refl, refl, refl)

handshakes_agree :
    (test_secure_handshake_both_sides keyed psk (replicate 32 1) (replicate 32 2) ≡ ok tt)
    × (test_secure_handshake_then_encrypted_exchange keyed psk (replicate 32 1) (replicate 32 2)
        ≡ ok tt)
unfolding test_secure_handshake_both_sides test_secure_handshake_then_encrypted_exchange calls
handshakes_agree = (refl, refl)

refused_large :
    (huge : Bytes)
    → max_plaintext < length huge
    → is_err (write_encrypted_frame keyed pipe huge (replicate key_len 0) (channel [])).0 ≡ true
unfolding write_encrypted_frame
refused_large huge h = rw (lt→ltb max_plaintext (length huge) h) refl

bad_frames :
    (test_read_frame_eof keyed psk ≡ ok tt)
    × (test_write_frame_too_large keyed psk ≡ ok tt)
    × (test_read_frame_too_short keyed psk ≡ ok tt)
    × (test_encrypt_decrypt_with_wrong_key keyed psk ≡ ok tt)
unfolding test_read_frame_eof test_write_frame_too_large test_read_frame_too_short
    test_encrypt_decrypt_with_wrong_key calls
bad_frames = (
  refl,
  ap assert (refused_large (replicate (max_plaintext + 1) 0) (simp length-replicate (omega arith))),
  refl,
  refl,
)
