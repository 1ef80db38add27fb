-- ===== src/Tunnel/Encrypted/Duplex/Lane.antt =====
-- One direction of a duplex tunnel: what a round of each loop does to it, and the invariant that the
-- rounds and the network keep.
use vs_vpn.Prelude.{
  ℕ, ◌/◌, ◌%◌, ◌^◌, ◌<◌, ◌≤◌, ◌≡◌, ◌≢◌, refl, ap, sym, subst, ◌∙◌, [], ◌∷◌, ◌++◌, append_assoc,
  append-nil, arith, Bytes, true, false, length, length-append, get_or, cut,
}
use vs_vpn.Outcome.{ok}
use vs_vpn.Io.{Io, Wire}
use vs_vpn.Std.Words.{to_be_bytes, from_be_bytes, from_be_bytes-to_be_bytes}
use vs_vpn.Crypto.Primitives.{Suite, IsAead}
use vs_vpn.Crypto.{key_len, tag_len, seal, unseal, send_round, receive_round}
use vs_vpn.Crypto.Frames.{framed, length-framed, after}
use vs_vpn.Crypto.Rounds.{Frames, no_more, frame, send_round-chunk, receive_round-frame}
use vs_vpn.Tunnel.Encrypted.{Both, outwards, inwards}
use vs_vpn.Tunnel.Encrypted.Duplex.{HasFrame, sent_by, received_by}

module _ {crypto : Suite} {key : Bytes} where
  -- A frame more at the end.
  pub Frames-snoc :
      {n m : ℕ} {wire plain : Bytes} (ciphertext plaintext : Bytes)
      → Frames crypto key n wire plain m
      → tag_len ≤ length ciphertext
      → length ciphertext < 2 ^ 16
      → unseal crypto key m ciphertext ≡ ok plaintext
      → Frames crypto key n (wire ++ framed ciphertext) (plain ++ plaintext) (after m)
  Frames-snoc {n} ct pt no_more tagged short opened =
      subst (λ xs. Frames crypto key n xs pt (after n)) (append-nil (framed ct))
        (subst (λ xs. Frames crypto key n (framed ct ++ []) xs (after n)) (append-nil pt)
          (frame ct pt tagged short opened no_more))
  Frames-snoc {n} {m} ct pt (frame {wire = w} {plain = p} c q tagged short opened fs) t s o =
      subst (λ xs. Frames crypto key n xs ((q ++ p) ++ pt) (after m))
        (sym (append_assoc (framed c) w (framed ct)))
        (subst (λ xs. Frames crypto key n (framed c ++ (w ++ framed ct)) xs (after m))
          (sym (append_assoc q p pt)) (frame c q tagged short opened (Frames-snoc ct pt fs t s o)))

module _ (crypto : Suite) (key : Bytes) where
  -- The first frame of some frames, where it has arrived whole.
  pub record First (n m : ℕ) (front flight plain : Bytes) : Type 0 where
    pub ciphertext : Bytes
    pub plaintext : Bytes
    pub more : Bytes
    pub tail : Bytes
    pub tagged : tag_len ≤ length ciphertext
    pub short : length ciphertext < 2 ^ 16
    pub opened : unseal crypto key n ciphertext ≡ ok plaintext
    pub at_front : front ≡ framed ciphertext ++ more
    pub first : plain ≡ plaintext ++ tail
    pub later : Frames crypto key (after n) (more ++ flight) tail m

pub length_read :
    (ct wire front flight : Bytes)
    → length ct < 2 ^ 16
    → framed ct ++ wire ≡ front ++ flight
    → 2 ≤ length front
    → from_be_bytes (get_or front 0 0) (get_or front 1 0) ≡ length ct
unfolding to_be_bytes
length_read ct wire [] flight short e h = absurd (omega arith)
length_read ct wire (x ∷ []) flight short e h = absurd (omega arith)
length_read ct wire (x ∷ y ∷ front) flight short e h =
    let n : ℕ = length ct % 2 ^ 16 in
    let hi : n / 256 % 256 ≡ x = cc in
    let lo : n % 256 ≡ y = cc in
    rw (← hi, ← lo) (from_be_bytes-to_be_bytes n (omega arith) ∙ omega arith)

module _ {crypto : Suite} {key : Bytes} where
  pub Frames-First :
      {n m : ℕ} {wire plain : Bytes} (front flight : Bytes)
      → Frames crypto key n wire plain m
      → wire ≡ front ++ flight
      → HasFrame front
      → First crypto key n m front flight plain
  Frames-First front flight no_more e (two, whole) =
      absurd (omega (arith, ap length e, length-append front flight))
  Frames-First {n} {m} front flight (frame {wire = w} {plain = p} ct pt tagged short opened fs) e
        (two, whole) =
      let size : from_be_bytes (get_or front 0 0) (get_or front 1 0) ≡ length ct =
        length_read ct w front flight short e two in
      let (more, at_front, behind) =
        cut (framed ct) w front flight (sym e) (omega (arith, size, length-framed ct)) in
      record {
        ciphertext = ct;
        plaintext = pt;
        more = more;
        tail = p;
        tagged = tagged;
        short = short;
        opened = opened;
        at_front = at_front;
        first = refl;
        later = subst (λ xs. Frames crypto key (after n) xs p m) behind fs;
      }

module _ (crypto : Suite) (tokio : Io) (wire : Wire tokio) where
  open tokio use {Stream}

  -- What a round of the outward loop has done to its end.
  pub record Sent (key : Bytes) (a a' : Both Stream) : Type 0 where
    pub chunk : Bytes
    pub ciphertext : Bytes
    pub split : wire.arrived a.external ≡ chunk ++ wire.arrived a'.external
    pub some_ : 1 ≤ length chunk
    pub tagged : tag_len ≤ length ciphertext
    pub short : length ciphertext < 2 ^ 16
    pub opened : unseal crypto key a.send_counter ciphertext ≡ ok chunk
    pub sealed : seal crypto key a.send_counter chunk ≡ ok ciphertext
    pub wrote : wire.sent a'.tunnel ≡ wire.sent a.tunnel ++ framed ciphertext
    pub counted : a'.send_counter ≡ after a.send_counter
    pub untouched : a'.recv_counter ≡ a.recv_counter
    pub unread : wire.arrived a'.tunnel ≡ wire.arrived a.tunnel
    pub unwritten : wire.sent a'.external ≡ wire.sent a.external
    pub tunnel_accepting : wire.accepting a'.tunnel ≡ true
    pub external_accepting : wire.accepting a'.external ≡ wire.accepting a.external

  -- And of the inward loop, on the frame that stood at the front of its tunnel.
  pub record Received (b b' : Both Stream) (plaintext more : Bytes) : Type 0 where
    pub left : wire.arrived b'.tunnel ≡ more
    pub delivered : wire.sent b'.external ≡ wire.sent b.external ++ plaintext
    pub counted : b'.recv_counter ≡ after b.recv_counter
    pub untouched : b'.send_counter ≡ b.send_counter
    pub unread : wire.arrived b'.external ≡ wire.arrived b.external
    pub unwritten : wire.sent b'.tunnel ≡ wire.sent b.tunnel
    pub tunnel_accepting : wire.accepting b'.tunnel ≡ wire.accepting b.tunnel
    pub external_accepting : wire.accepting b'.external ≡ true

module _ (crypto : Suite) (laws : IsAead crypto) (tokio : Io) (wire : Wire tokio) where
  open tokio use {Stream}

  pub send-Sent :
      (key : Bytes) (a : Both Stream)
      → length key ≡ key_len
      → wire.accepting a.tunnel ≡ true
      → wire.arrived a.external ≢ []
      → ((outwards (send_round crypto tokio key) a).0 ≡ ok false)
        × Sent crypto tokio wire key a (sent_by crypto tokio wire key a)
  send-Sent key a hk acc more =
      let (
        r, chunk, ct, step, split, some_, size, few, opened, wrote, acc', _, counted, unread,
        unwritten, ext, sealed,
      ) =
        send_round-chunk crypto laws tokio wire key
          (record { reader = a.external; writer = a.tunnel; nonce = a.send_counter }) hk acc more in
      rw step (
        refl,
        record {
          chunk = chunk;
          ciphertext = ct;
          split = split;
          some_ = some_;
          tagged = omega arith;
          short = omega arith;
          opened = opened;
          sealed = sealed;
          wrote = wrote;
          counted = counted;
          untouched = refl;
          unread = unread;
          unwritten = unwritten;
          tunnel_accepting = acc';
          external_accepting = ext;
        },
      )

  pub receive-Received :
      (key : Bytes) (b : Both Stream) (ciphertext plaintext more : Bytes)
      → tag_len ≤ length ciphertext
      → length ciphertext < 2 ^ 16
      → unseal crypto key b.recv_counter ciphertext ≡ ok plaintext
      → wire.arrived b.tunnel ≡ framed ciphertext ++ more
      → wire.accepting b.external ≡ true
      → ((inwards (receive_round crypto tokio key) b).0 ≡ ok false)
        × Received crypto tokio wire b (received_by crypto tokio wire key b) plaintext more
  receive-Received key b ct pt more tagged short opened arrived acc =
      let (r, step, left, delivered, counted, acc', _, unread, unwritten, tun) =
        receive_round-frame crypto laws tokio wire key
          (record { reader = b.tunnel; writer = b.external; nonce = b.recv_counter }) ct pt more
          tagged short opened arrived acc in
      rw step (
        refl,
        record {
          left = left;
          delivered = delivered;
          counted = counted;
          untouched = refl;
          unread = unread;
          unwritten = unwritten;
          tunnel_accepting = tun;
          external_accepting = acc';
        },
      )
