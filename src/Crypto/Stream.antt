-- ===== src/Crypto/Stream.antt =====
-- A whole stream through the two relay loops: any bytes, in any chunks, arrive as they were.
use vs_vpn.Prelude.{
  nil-cases, ℕ, zero, suc, ◌<◌, ◌≡◌, ap, sym, subst, ◌∙◌, [], ◌++◌, append_assoc, append-nil, arith,
  Bytes, true, some, length, length-append, append_cancel_left, inl, inr,
}
use vs_vpn.Outcome.{ok}
use vs_vpn.Act.{repeat-break, repeat_again}
use vs_vpn.Io.{Io, Wire}
use vs_vpn.Crypto.Primitives.{Suite, IsAead}
use vs_vpn.Crypto.{
  key_len, relay_buf, Relay, send_chunk, send_round, deliver, receive_round,
  relay_plain_to_encrypted, relay_encrypted_to_plain,
}
use vs_vpn.Crypto.Frames.{framed, length-framed, after, read_encrypted_frame-eof}
use vs_vpn.Crypto.Rounds.{Frames, no_more, frame, send_round-chunk, receive_round-frame}

-- What a relay loop is given: a source that ends, a sink that takes all it is sent.
pub record IsReady (tokio : Io) (wire : Wire tokio) (r : Relay tokio.Stream) : Type 0 where
  pub accepting : wire.accepting r.writer ≡ true
  pub closed : wire.closed r.reader ≡ true

module _ (crypto : Suite) (laws : IsAead crypto) (tokio : Io) (wire : Wire tokio) where
  open tokio use {Stream}

  -- The first loop ends when its source does: it has sent every byte, in frames of its counter.
  relay_sends :
      (rounds : ℕ) (key : Bytes) (r : Relay Stream)
      → length key ≡ key_len
      → wire.accepting r.writer ≡ true
      → wire.closed r.reader ≡ true
      → length (wire.arrived r.reader) < rounds
      → (r' : Relay Stream) × (bytes : Bytes) × (relay_plain_to_encrypted crypto tokio rounds key r
          ≡ (ok (some tt), r'))
        × Frames crypto key r.nonce bytes (wire.arrived r.reader) r'.nonce
        × (wire.sent r'.writer ≡ wire.sent r.writer ++ bytes)
  unfolding relay_plain_to_encrypted
  relay_sends zero key r hk acc closed h = absurd (omega arith)
  relay_sends (suc rounds) key r hk acc closed h = elim (nil-cases (wire.arrived r.reader)) [
    | inl e ↦
        let (s', got, _, _) = wire.read_eof r.reader relay_buf closed e in
        (
          record r { reader = s' },
          [],
          repeat-break rounds (send_round crypto tokio key) r _
              (unfold send_round send_chunk in rw got),
          rw e no_more,
          sym (append-nil (wire.sent r.writer)),
        )
    | inr more ↦
        let (
          r₁, chunk, ct, step, split, some_, size, few, opened, sent₁, acc₁, closed₁, n₁, _, _, _,
          _,
        ) =
          send_round-chunk crypto laws tokio wire key r hk acc more in
        let (r₂, bytes, run, frames, sent₂) =
          relay_sends rounds key r₁ hk acc₁ (closed₁ ∙ closed)
            (omega (arith, ap length split, length-append chunk (wire.arrived r₁.reader))) in
        (
          r₂,
          framed ct ++ bytes,
          repeat_again rounds _ r r₁ step ∙ run,
          subst (λ xs. Frames crypto key r.nonce (framed ct ++ bytes) xs r₂.nonce) (sym split)
              (frame ct chunk (omega arith) (omega arith) opened (rw n₁ at frames)),
          rw (sent₂, sent₁) (append_assoc (wire.sent r.writer) (framed ct) bytes),
        )
  ]

  -- The second loop, on frames of its counter, delivers what they hold and ends with the stream.
  relay_delivers :
      (key : Bytes) (rounds : ℕ) {n m : ℕ} {bytes plain : Bytes} (r : Relay Stream)
      → Frames crypto key n bytes plain m
      → r.nonce ≡ n
      → wire.arrived r.reader ≡ bytes
      → wire.accepting r.writer ≡ true
      → wire.closed r.reader ≡ true
      → length bytes < rounds
      → (r' : Relay Stream) × (relay_encrypted_to_plain crypto tokio rounds key r
          ≡ (ok (some tt), r'))
        × (wire.sent r'.writer ≡ wire.sent r.writer ++ plain)
        × (r'.nonce ≡ m)
  unfolding relay_encrypted_to_plain
  relay_delivers key zero r fs hn arrived acc closed h = absurd (omega arith)
  relay_delivers key (suc rounds) r no_more hn arrived acc closed h =
      let (s', end) =
        read_encrypted_frame-eof crypto tokio wire key
          (record { stream = r.reader; nonce = r.nonce }) closed (rw arrived (omega arith)) in
      (
        record r { reader = s' },
        repeat-break rounds (receive_round crypto tokio key) r _
            (unfold receive_round deliver in rw end),
        sym (append-nil (wire.sent r.writer)),
        hn,
      )
  relay_delivers key (suc rounds) r
        (frame {wire = more} {plain = tail} ct pt tagged short opened fs) hn arrived acc closed h =
      let (r₁, step, a₁, sent₁, n₁, acc₁, c₁, _, _, _) =
        receive_round-frame crypto laws tokio wire key r ct pt more tagged short (rw hn opened)
          arrived acc in
      let (r₂, run, sent₂, last) =
        relay_delivers key rounds r₁ fs (n₁ ∙ ap after hn) a₁ acc₁ (c₁ ∙ closed)
          (omega (arith, length-append (framed ct) more, length-framed ct)) in
      (
        r₂,
        repeat_again rounds (receive_round crypto tokio key) r r₁ step ∙ run,
        rw (sent₂, sent₁) (append_assoc (wire.sent r.writer) pt tail),
        last,
      )

  -- The first loop ends: with a key of 32 bytes, a closed source, a sink that takes what is
  -- written and more rounds than the source has bytes, it breaks out, and what it has written
  -- opens, frame by frame from its counter on, to all that the source held.
  pub relay_plain_to_encrypted_ends :
      (key : Bytes) (r : Relay Stream) (rounds : ℕ)
      → length key ≡ key_len
      → IsReady tokio wire r
      → length (wire.arrived r.reader) < rounds
      → (r' : Relay Stream) × (bytes : Bytes) × (relay_plain_to_encrypted crypto tokio rounds key r
          ≡ (ok (some tt), r'))
        × (wire.sent r'.writer ≡ wire.sent r.writer ++ bytes)
        × Frames crypto key r.nonce bytes (wire.arrived r.reader) r'.nonce
  relay_plain_to_encrypted_ends key r rounds hk ready h =
      let (r', bytes, run, frames, sent) =
        relay_sends rounds key r hk ready.accepting ready.closed h in
      (r', bytes, run, sent, frames)

  -- Together the loops are the identity on the stream. The key has 32 bytes; both sources are
  -- closed behind what has arrived, and both sinks take what is written. Where the first loop,
  -- with more rounds than its source has bytes, has written some bytes, and exactly these have
  -- arrived at the second one with the same key and counter, then with more rounds than these
  -- bytes the second ends, and has written what the source of the first held, however `read` cut
  -- it. The two counters agree again.
  pub relay_round_trip :
      (key bytes : Bytes) (r r' q : Relay Stream) (rounds rounds' : ℕ)
      → length key ≡ key_len
      → IsReady tokio wire r
      → length (wire.arrived r.reader) < rounds
      → relay_plain_to_encrypted crypto tokio rounds key r ≡ (ok (some tt), r')
      → wire.sent r'.writer ≡ wire.sent r.writer ++ bytes
      → IsReady tokio wire q
      → q.nonce ≡ r.nonce
      → wire.arrived q.reader ≡ bytes
      → length bytes < rounds'
      → (q' : Relay Stream) × (relay_encrypted_to_plain crypto tokio rounds' key q
          ≡ (ok (some tt), q'))
        × (wire.sent q'.writer ≡ wire.sent q.writer ++ wire.arrived r.reader)
        × (q'.nonce ≡ r'.nonce)
  relay_round_trip key bytes r r' q rounds rounds' hk ready h run wrote ready' hn arrived h' =
      let (r₁, bytes₁, run₁, frames, wrote₁) =
        relay_sends rounds key r hk ready.accepting ready.closed h in
      let same : r₁ ≡ r' = ap (λ p. p.1) (sym run₁ ∙ run) in
      let same_bytes : bytes₁ ≡ bytes =
        append_cancel_left (wire.sent r.writer) _ _
          (sym wrote₁ ∙ ap (λ (x : Relay Stream). wire.sent x.writer) same ∙ wrote) in
      let (q', end, sent, last) =
        relay_delivers key rounds' q frames hn (arrived ∙ sym same_bytes) ready'.accepting
          ready'.closed (omega (arith, ap length same_bytes)) in
      (q', end, sent, last ∙ ap (λ (x : Relay Stream). x.nonce) same)
