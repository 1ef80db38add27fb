-- ===== src/Tunnel/Encrypted/HalfClose.antt =====
-- `relay_bidirectional` of the encrypted tunnel where the application closes its sending side.
use vs_vpn.Prelude.{
  ℕ, zero, suc, ◌<◌, ◌≡◌, refl, ap, sym, subst, ◌∙◌, [], ◌++◌, append_assoc, append-nil, arith,
  Bytes, Bool, true, false, none, some, if◌then◌else◌, length, length-append, replicate, nil-cases,
  inl, inr,
}
use vs_vpn.Outcome.{ok}
use vs_vpn.Io.{Io, Wire}
use vs_vpn.Crypto.Primitives.{Suite, IsAead}
use vs_vpn.Crypto.{Relay, key_len, relay_buf, send_round, send_chunk, receive_round}
use vs_vpn.Crypto.Frames.{framed}
use vs_vpn.Crypto.Rounds.{Frames, no_more, frame, send_round-chunk}
use vs_vpn.Tunnel.{Schedule, outward, race}
use vs_vpn.Tunnel.Encrypted.{
  EncryptedTunnel, Both, outwards, inwards, start_relay, relay_bidirectional, send_key, recv_key,
  send_nonce, recv_nonce,
}

module _ (crypto : Suite) (tokio : Io) (wire : Wire tokio) where
  open tokio use {Stream}

  end_round :
      (key : Bytes) (r : Relay Stream)
      → wire.closed r.reader ≡ true
      → wire.arrived r.reader ≡ []
      → (s' : Stream) × (send_round crypto tokio key r ≡ (ok true, record r { reader = s' }))
        × (wire.sent s' ≡ wire.sent r.reader)
  unfolding send_round send_chunk
  end_round key r closed read =
      let (s', got, sent, _) = wire.read_eof r.reader relay_buf closed read in (s', rw got, sent)

-- A counter that is stored for one side is read for that side.
on_its_side :
    (is_client : Bool) (x y : ℕ)
    → (if is_client then (if is_client then x else y) else (if is_client then y else x)) ≡ x
on_its_side true x y = refl
on_its_side false x y = refl

module _ (crypto : Suite) (laws : IsAead crypto) (tokio : Io) (wire : Wire tokio) where
  open tokio use {Stream}

  -- What is left behind when the outward loop has read its application to the end.
  record ReadToEnd (key : Bytes) (b end : Both Stream) : Type 0 where
    bytes : Bytes
    wrote : wire.sent end.tunnel ≡ wire.sent b.tunnel ++ bytes
    frames : Frames crypto key b.send_counter bytes (wire.arrived b.external) end.send_counter
    unwritten : wire.sent end.external ≡ wire.sent b.external
    untouched : end.recv_counter ≡ b.recv_counter

  race-ReadToEnd :
      (k : ℕ) (schedule : Schedule) (key key' : Bytes) (b : Both Stream)
      → length key ≡ key_len
      → wire.accepting b.tunnel ≡ true
      → wire.closed b.external ≡ true
      → length (wire.arrived b.external) < k
      → (end : Both Stream) × (race
            (outwards (send_round crypto tokio key))
            (inwards (receive_round crypto tokio key'))
            (replicate k outward ++ schedule)
            b
          ≡ (ok (some tt), end))
        × ReadToEnd key b end
  unfolding race
  race-ReadToEnd zero schedule key key' b hk acc closed h = absurd (omega arith)
  race-ReadToEnd (suc k) schedule key key' b hk acc closed h =
      elim (nil-cases (wire.arrived b.external)) [
        | inl read ↦
            let (e, step, sent) =
              end_round crypto tokio wire key
                (record { reader = b.external; writer = b.tunnel; nonce = b.send_counter }) closed
                read in
            (
              record b { external = e },
              rw step refl,
              record {
                bytes = [];
                wrote = sym (append-nil (wire.sent b.tunnel));
                frames = rw read no_more;
                unwritten = sent;
                untouched = refl;
              },
            )
        | inr more ↦
            let (
              r, chunk, ct, step, split, some_, size, few, opened, sent₁, acc₁, closed₁, n₁, _,
              unwritten₁, _, _,
            ) =
              send_round-chunk crypto laws tokio wire key
                (record { reader = b.external; writer = b.tunnel; nonce = b.send_counter }) hk acc
                more in
            let b₁ : Both Stream = record b {
              external = r.reader;
              tunnel = r.writer;
              send_counter = r.nonce;
            } in
            let (end, run, d) =
              race-ReadToEnd k schedule key key' b₁ hk acc₁ (closed₁ ∙ closed)
                (omega (arith, ap length split, length-append chunk (wire.arrived r.reader))) in
            (
              end,
              rw step run,
              record {
                bytes = framed ct ++ d.bytes;
                wrote =
                    d.wrote
                    ∙ ap (λ xs. xs ++ d.bytes) sent₁
                    ∙ append_assoc (wire.sent b.tunnel) (framed ct) d.bytes;
                frames =
                    subst
                      (λ xs.
                        Frames crypto key b.send_counter (framed ct ++ d.bytes) xs end.send_counter)
                      (sym split)
                      (frame ct chunk (omega arith) (omega arith) opened (
                        subst
                          (λ n.
                            Frames crypto key n d.bytes (wire.arrived r.reader) end.send_counter)
                          n₁ d.frames));
                unwritten = d.unwritten ∙ unwritten₁;
                untouched = d.untouched;
              },
            )
      ]

  -- An application that closes its side for sending, as one does behind a request, ends the whole relay
  -- once its bytes are read. Whatever it has sent before, with a key of 32 bytes, a tunnel that takes what is
  -- written and more outward rounds at the front of the schedule than these bytes: all of them leave in
  -- frames that open to them, from the counter of the tunnel on, and then `relay_bidirectional` succeeds at
  -- once, whatever its schedule still holds. Whatever has arrived at the tunnel by then, and whatever the
  -- other end still sends, the application is written nothing, no frame is counted as received, and the
  -- tunnel's stream is gone.
  pub relay_bidirectional-half_close :
      (k : ℕ) (schedule : Schedule) (t : EncryptedTunnel Stream) (s external : Stream)
      → t.stream ≡ some s
      → length (send_key t) ≡ key_len
      → wire.accepting s ≡ true
      → wire.closed external ≡ true
      → length (wire.arrived external) < k
      → (t' : EncryptedTunnel Stream) × (end : Both Stream) × (bytes : Bytes) × (race
            (outwards (send_round crypto tokio (send_key t)))
            (inwards (receive_round crypto tokio (recv_key t)))
            (replicate k outward ++ schedule)
            (start_relay t s external)
          ≡ (ok (some tt), end))
        × (relay_bidirectional crypto tokio (replicate k outward ++ schedule) (t, external)
            ≡ (ok (some tt), (t', end.external)))
        × (t'.stream ≡ none)
        × (wire.sent end.tunnel ≡ wire.sent s ++ bytes)
        × Frames crypto (send_key t) (send_nonce t) bytes (wire.arrived external) (send_nonce t')
        × (recv_nonce t' ≡ recv_nonce t)
        × (wire.sent end.external ≡ wire.sent external)
  unfolding relay_bidirectional
  relay_bidirectional-half_close k schedule t s external has hk acc closed h =
      let (end, run, d) =
        race-ReadToEnd k schedule (send_key t) (recv_key t) (start_relay t s external) hk acc closed
          h in
      let t' : EncryptedTunnel Stream = record t {
        stream = none;
        c_nonce = if t.is_client then end.send_counter else end.recv_counter;
        s_nonce = if t.is_client then end.recv_counter else end.send_counter;
      } in
      (
        t',
        end,
        d.bytes,
        run,
        rw (has, relay_bidirectional, run) refl,
        refl,
        d.wrote,
        subst (Frames crypto (send_key t) (send_nonce t) d.bytes (wire.arrived external))
            (sym (on_its_side t.is_client end.send_counter end.recv_counter)) d.frames,
        on_its_side t.is_client end.recv_counter end.send_counter ∙ d.untouched,
        d.unwritten,
      )
