-- ===== src/Crypto/Handshake.antt =====
-- `secure_handshake` at both ends.
use vs_vpn.Prelude.{
  ◌≡◌, ◌∙◌, ◌++◌, arith, Bytes, true, false, length, take, drop, length-take, length-drop,
}
use vs_vpn.Outcome.{ok}
use vs_vpn.Io.{Io, Wire}
use vs_vpn.Crypto.Primitives.{Suite, IsAead}
use vs_vpn.Crypto.{key_len, hkdf_info, derive_session_keys, secure_handshake}

module _ (crypto : Suite) (laws : IsAead crypto) where
  -- The derivation always succeeds, and both keys are whole.
  derive_session_keys_lem :
      (psk client_nonce server_nonce : Bytes)
      → (ck : Bytes) × (sk : Bytes) × (derive_session_keys crypto psk client_nonce server_nonce
          ≡ ok (ck, sk))
        × (length ck ≡ key_len)
        × (length sk ≡ key_len)
  unfolding derive_session_keys
  derive_session_keys_lem psk cn sn =
      let (okm, filled, size) = laws.expand_length psk (hkdf_info ++ cn ++ sn) 64 (omega arith) in
      (
        take key_len okm,
        drop key_len okm,
        rw (filled, derive_session_keys),
        length-take key_len okm (omega arith),
        omega (arith, length-drop key_len okm),
      )

module _ (crypto : Suite) (laws : IsAead crypto) (tokio : Io) (wire : Wire tokio) where
  open tokio use {Stream, read_exact, write_all}

  -- Where the server finds the client's nonce at the front of its stream, and the client, after its
  -- write, the server's nonce, both sides succeed with the same two keys, each of 32 bytes. What stands
  -- behind the nonces is left for the frames.
  pub secure_handshake_agree :
      (psk client_random server_random rest_client rest_server : Bytes) (c c₁ s : Stream)
      → length client_random ≡ key_len
      → length server_random ≡ key_len
      → write_all client_random c ≡ (ok tt, c₁)
      → wire.arrived c₁ ≡ server_random ++ rest_client
      → wire.arrived s ≡ client_random ++ rest_server
      → wire.accepting s ≡ true
      → (ck : Bytes) × (sk : Bytes) × (c' : Stream) × (s' : Stream) × (secure_handshake crypto tokio
            psk client_random true c
          ≡ (ok (ck, sk), c'))
        × (secure_handshake crypto tokio psk server_random false s ≡ (ok (ck, sk), s'))
        × (length ck ≡ key_len)
        × (length sk ≡ key_len)
        × (wire.arrived c' ≡ rest_client)
        × (wire.arrived s' ≡ rest_server)
        × (wire.sent s' ≡ wire.sent s ++ server_random)
  unfolding secure_handshake
  secure_handshake_agree psk cr sr rc rs c c₁ s hc hs wrote at_client at_server acc =
      let (ck, sk, derived, lc, ls) = derive_session_keys_lem crypto laws psk cr sr in
      let (c₂, got_c, left_c, _, _, _) = wire.read_exact_arrived c₁ sr rc at_client in
      let (s₁, got_s, left_s, sent₁, _, acc₁) = wire.read_exact_arrived s cr rs at_server in
      let (s₂, wrote_s, sent₂, left₂, _, _) = wire.write_all_accepting s₁ sr (acc₁ ∙ acc) in
      (
        ck,
        sk,
        c₂,
        s₂,
        rw (wrote, ← hs, got_c, derived),
        rw (← hc, got_s, wrote_s, derived),
        lc,
        ls,
        left_c,
        left₂ ∙ left_s,
        rw (sent₂, sent₁),
      )
