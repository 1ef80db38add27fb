-- ===== src/Tunnel/Encrypted/Pairing.antt =====
-- Two ends of an encrypted tunnel: frames go through both ways, and the ends stay in step.
use vs_vpn.Prelude.{
  ℕ, ◌≤◌, ◌≡◌, refl, ap, sym, ◌∙◌, ◌++◌, arith, Bytes, Bool, true, false, not, Option, some, length,
  if◌then◌else◌,
}
use vs_vpn.Outcome.{Outcome, ok}
use vs_vpn.Io.{Io, Wire}
use vs_vpn.Crypto.Primitives.{Suite, IsAead}
use vs_vpn.Crypto.{key_len, max_plaintext, Channel, write_encrypted_frame, read_encrypted_frame}
use vs_vpn.Crypto.Frames.{
  framed, after, sealed_frame, sealed_frame-eq, seal-unseal, write_sealed, read_sealed,
}
use vs_vpn.Crypto.Handshake.{secure_handshake_agree}
use vs_vpn.Tunnel.Encrypted.{
  EncryptedTunnel, send_key, recv_key, send_nonce, recv_nonce, new, send_frame, recv_frame,
  put_send, put_recv,
}

-- One side is the client, the other the server, and they agree on both keys and both counters.
pub record Paired {Stream : Type 0} (a b : EncryptedTunnel Stream) : Type 0 where
  pub sides : b.is_client ≡ not a.is_client
  pub client_keys : a.client_key ≡ b.client_key
  pub server_keys : a.server_key ≡ b.server_key
  pub c_counters : a.c_nonce ≡ b.c_nonce
  pub s_counters : a.s_nonce ≡ b.s_nonce
  pub client_whole : length a.client_key ≡ key_len
  pub server_whole : length a.server_key ≡ key_len

module _ {Stream : Type 0} {a b : EncryptedTunnel Stream} (p : Paired a b) where
  pub same_key : recv_key b ≡ send_key a
  same_key = rw p.sides (by_side a.is_client)
    where
      by_side :
          (side : Bool)
          → (if not side then b.server_key else b.client_key)
            ≡ (if side then a.client_key else a.server_key)
      by_side true = sym p.client_keys
      by_side false = sym p.server_keys

  pub same_nonce : recv_nonce b ≡ send_nonce a
  same_nonce = rw p.sides (by_side a.is_client)
    where
      by_side :
          (side : Bool)
          → (if not side then b.s_nonce else b.c_nonce) ≡ (if side then a.c_nonce else a.s_nonce)
      by_side true = sym p.c_counters
      by_side false = sym p.s_counters

  pub whole_key : length (send_key a) ≡ key_len
  whole_key = by_side a.is_client
    where
      by_side : (side : Bool) → length (if side then a.client_key else a.server_key) ≡ key_len
      by_side true = p.client_whole
      by_side false = p.server_whole

  -- A frame from `a` to `b` moves the same counter on both sides.
  Paired-frame :
      (s t : Stream) (n : ℕ)
      → Paired
          (put_send (record { stream = s; nonce = n }) a)
          (put_recv (record { stream = t; nonce = n }) b)
  Paired-frame s t n = ground arith

module _ (crypto : Suite) (tokio : Io) where
  open tokio use {Stream}

  send_frame_with :
      (plaintext : Bytes) (a : EncryptedTunnel Stream) (s : Stream) (r : Outcome (Unit {0}))
      (c : Channel Stream)
      → a.stream ≡ some s
      → write_encrypted_frame crypto tokio plaintext
          (send_key a)
          (record { stream = s; nonce = send_nonce a })
        ≡ (r, c)
      → send_frame crypto tokio plaintext a ≡ (r, put_send c a)
  unfolding send_frame
  send_frame_with plaintext a s r c h w = rw (h, send_frame, w)

  recv_frame_with :
      (key : Bytes) (n : ℕ) (b : EncryptedTunnel Stream) (t : Stream) (r : Outcome (Option Bytes))
      (c : Channel Stream)
      → b.stream ≡ some t
      → recv_key b ≡ key
      → recv_nonce b ≡ n
      → read_encrypted_frame crypto tokio key (record { stream = t; nonce = n }) ≡ (r, c)
      → recv_frame crypto tokio b ≡ (r, put_recv c b)
  unfolding recv_frame
  recv_frame_with key n b t r c h hk hn w = rw (h, recv_frame, hk, hn, w)

module _ (crypto : Suite) (laws : IsAead crypto) (tokio : Io) (wire : Wire tokio) where
  open tokio use {Stream}

  -- A frame that goes from `a` on `s` to `b` on `t`: what both calls answer and leave behind.
  pub record Passed (plaintext rest : Bytes) (a b : EncryptedTunnel Stream) (s t : Stream)
      : Type 0 where
    pub a' : EncryptedTunnel Stream
    pub b' : EncryptedTunnel Stream
    pub s' : Stream
    pub t' : Stream
    pub sends : send_frame crypto tokio plaintext a ≡ (ok tt, a')
    pub receives : recv_frame crypto tokio b ≡ (ok (some plaintext), b')
    pub a'_stream : a'.stream ≡ some s'
    pub b'_stream : b'.stream ≡ some t'
    pub sent :
        wire.sent s' ≡ wire.sent s ++ sealed_frame crypto (send_key a) (send_nonce a) plaintext
    pub s'_arrived : wire.arrived s' ≡ wire.arrived s
    pub s'_accepting : wire.accepting s' ≡ true
    pub left : wire.arrived t' ≡ rest
    pub t'_accepting : wire.accepting t' ≡ wire.accepting t
    pub in_step : Paired a' b'

  pub frame_passes :
      (plaintext rest : Bytes) (a b : EncryptedTunnel Stream) (s t : Stream)
      → Paired a b
      → a.stream ≡ some s
      → b.stream ≡ some t
      → wire.accepting s ≡ true
      → length plaintext ≤ max_plaintext
      → wire.arrived t ≡ sealed_frame crypto (send_key a) (send_nonce a) plaintext ++ rest
      → Passed plaintext rest a b s t
  frame_passes plaintext rest a b s t p has_a has_b acc fits arrived =
      let n : ℕ = send_nonce a in
      let (ct, sealed, size, opened) =
        seal-unseal crypto laws (send_key a) plaintext n (whole_key p) fits in
      let on_wire : sealed_frame crypto (send_key a) n plaintext ≡ framed ct =
        sealed_frame-eq crypto (send_key a) plaintext ct n sealed in
      let (s', wrote, sent, acc_s, left_s, _) =
        write_sealed crypto tokio wire plaintext (send_key a) (record { stream = s; nonce = n }) ct
          fits sealed acc in
      let (t', read, left, _, _, acc_t) =
        read_sealed crypto tokio wire (send_key a) (record { stream = t; nonce = n }) ct plaintext
          rest (omega arith) (omega arith) opened (arrived ∙ ap (λ bs. bs ++ rest) on_wire) in
      record {
        a' = put_send (record { stream = s'; nonce = after n }) a;
        b' = put_recv (record { stream = t'; nonce = after n }) b;
        s' = s';
        t' = t';
        sends = send_frame_with crypto tokio plaintext a s (ok tt) _ has_a wrote;
        receives =
            recv_frame_with crypto tokio (send_key a) n b t (ok (some plaintext)) _ has_b
              (same_key p) (same_nonce p) read;
        a'_stream = refl;
        b'_stream = refl;
        sent = sent ∙ ap (λ bs. wire.sent s ++ bs) (sym on_wire);
        s'_arrived = left_s;
        s'_accepting = acc_s;
        left = left;
        t'_accepting = acc_t;
        in_step = Paired-frame p s' t' (after n);
      }

  -- Whatever text of at most 65519 bytes one end of a pair in step sends, the other receives,
  -- whichever of them is the client: over a stream that takes what is written the sender succeeds
  -- and writes the sealed frame, and the receiver to which this frame has arrived, with anything
  -- behind it, returns the text and leaves the rest. Both ends are in step for the next frame.
  pub recv_frame-send_frame :
      (plaintext rest : Bytes) (a b : EncryptedTunnel Stream) (s t : Stream)
      → Paired a b
      → a.stream ≡ some s
      → b.stream ≡ some t
      → wire.accepting s ≡ true
      → length plaintext ≤ max_plaintext
      → wire.arrived t ≡ sealed_frame crypto (send_key a) (send_nonce a) plaintext ++ rest
      → (a' : EncryptedTunnel Stream) × (b' : EncryptedTunnel Stream) × (s' : Stream)
        × (t' : Stream) × (send_frame crypto tokio plaintext a ≡ (ok tt, a'))
        × (recv_frame crypto tokio b ≡ (ok (some plaintext), b'))
        × (a'.stream ≡ some s')
        × (b'.stream ≡ some t')
        × (wire.sent s' ≡ wire.sent s ++ sealed_frame crypto (send_key a) (send_nonce a) plaintext)
        × (wire.arrived t' ≡ rest)
        × Paired a' b'
  recv_frame-send_frame plaintext rest a b s t p has_a has_b acc fits arrived =
      let f = frame_passes plaintext rest a b s t p has_a has_b acc fits arrived in
      (
        f.a', f.b', f.s', f.t', f.sends, f.receives, f.a'_stream, f.b'_stream, f.sent, f.left,
        f.in_step,
      )

  -- The handshake makes a pair: where both nonces have 32 bytes, the client's write succeeds, the
  -- server's nonce then stands at the front of the client's stream and the client's at the front
  -- of the server's, which takes what is written, both tunnels are made, in step with both
  -- counters at zero.
  pub new-Paired :
      (psk client_random server_random rest_client rest_server : Bytes) (c c₁ s : Stream)
      → length client_random ≡ key_len
      → length server_random ≡ key_len
      → tokio.write_all client_random c ≡ (ok tt, c₁)
      → wire.arrived c₁ ≡ server_random ++ rest_client
      → wire.arrived s ≡ client_random ++ rest_server
      → wire.accepting s ≡ true
      → (a : EncryptedTunnel Stream) × (b : EncryptedTunnel Stream) × (new crypto tokio psk
            client_random true c
          ≡ ok a)
        × (new crypto tokio psk server_random false s ≡ ok b)
        × Paired a b
        × (a.c_nonce ≡ 0)
        × (a.s_nonce ≡ 0)
  unfolding new
  new-Paired psk cr sr rc rs c c₁ s hc hs wrote at_client at_server acc =
      let (ck, sk, c', s', client, server, lc, ls, _, _, _) =
        secure_handshake_agree crypto laws tokio wire psk cr sr rc rs c c₁ s hc hs wrote at_client
          at_server acc in
      (
        record {
          stream = some c';
          client_key = ck;
          server_key = sk;
          c_nonce = 0;
          s_nonce = 0;
          is_client = true;
        },
        record {
          stream = some s';
          client_key = ck;
          server_key = sk;
          c_nonce = 0;
          s_nonce = 0;
          is_client = false;
        },
        rw client,
        rw server,
        record {
          sides = refl;
          client_keys = refl;
          server_keys = refl;
          c_counters = refl;
          s_counters = refl;
          client_whole = lc;
          server_whole = ls;
        },
        refl,
        refl,
      )
