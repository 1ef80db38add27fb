-- ===== src/Crypto/Counters.antt =====
-- The nonces: on every path of the two frame functions, and as bytes.
use vs_vpn.Prelude.{
  ℕ, ◌^◌, ◌<◌, ◌≡◌, inl, inr, refl, ap, sym, ◌∙◌, Bytes, Option, none, some, length, ltb,
  Bool-cases, take, get_or,
}
use vs_vpn.Outcome.{Outcome, ok, err, panic}
use vs_vpn.Act.{continue, ◌>>=◌, ◌>>◌, lift, pure}
use vs_vpn.Io.{Io}
use vs_vpn.Std.Words.{
  to_le_bytes, le_value, le_value-to_le_bytes, to_be_bytes, as_u16, from_be_bytes,
}
use vs_vpn.Crypto.Primitives.{Suite}
use vs_vpn.Crypto.{
  max_plaintext, tag_len, full_nonce, seal, unseal, Channel, on_stream, count_frame,
  write_encrypted_frame, read_frame_body, read_encrypted_frame, ended,
}
use vs_vpn.Crypto.Frames.{after}

-- Two counters below 2 ^ 64 with the same twelve bytes of nonce are equal.
pub full_nonce-injective : (i j : ℕ) → i < 2 ^ 64 → j < 2 ^ 64 → full_nonce i ≡ full_nonce j → i ≡ j
unfolding full_nonce to_le_bytes
full_nonce-injective i j hi hj e =
    sym (le_value-to_le_bytes i hi) ∙ ap (λ bs. le_value (take 8 bs)) e ∙ le_value-to_le_bytes j hj

-- A frame counts exactly when it succeeds.
abbrev pub Counted : {Stream A : Type 0} → ℕ → Outcome A × Channel Stream → Type 0
Counted n (ok a, c) = c.nonce ≡ after n
Counted n (err e, c) = c.nonce ≡ n
Counted n (panic, c) = c.nonce ≡ n

module _ (crypto : Suite) (tokio : Io) where
  open tokio use {Stream, write_all}

  second_write :
      (bytes : Bytes) (n : ℕ) (r : Outcome (Unit {0})) (s : Stream)
      → Counted n (
          continue
            (λ _. on_stream (write_all bytes) >> count_frame)
            r
            (record { stream = s; nonce = n }))
  second_write bytes n (err e) s = refl
  second_write bytes n panic s = refl
  second_write bytes n (ok _) s = last (write_all bytes s).0 (write_all bytes s).1
    where
      last :
          (r : Outcome (Unit {0})) (s' : Stream)
          → Counted n (continue (λ _. count_frame) r (record { stream = s'; nonce = n }))
      last (ok _) s' = refl
      last (err e) s' = refl
      last panic s' = refl

  -- A frame that is written takes one count; one that is refused or fails, wherever it fails, takes
  -- none.
  pub write_encrypted_frame-Counted :
      (plaintext key : Bytes) (c : Channel Stream)
      → Counted c.nonce (write_encrypted_frame crypto tokio plaintext key c)
  unfolding write_encrypted_frame
  write_encrypted_frame-Counted plaintext key c =
      elim (Bool-cases (ltb max_plaintext (length plaintext))) [
        | inl e ↦ rw e refl
        | inr e ↦ rw e (sealed (seal crypto key c.nonce plaintext))
      ]
    where
      sealed :
          (r : Outcome Bytes)
          → Counted c.nonce (
              continue
                (λ ct.
                  on_stream (write_all (to_be_bytes (as_u16 (length ct))))
                  >> (on_stream (write_all ct) >> count_frame))
                r
                c)
      sealed (ok ct) =
          let (r, s) = write_all (to_be_bytes (as_u16 (length ct))) c.stream in
          second_write ct c.nonce r s
      sealed (err e) = refl
      sealed panic = refl

-- Reading counts exactly the frames that it returns.
abbrev pub CountedRead : {Stream : Type 0} → ℕ → Outcome (Option Bytes) × Channel Stream → Type 0
CountedRead n (ok (some plain), c) = c.nonce ≡ after n
CountedRead n (ok none, c) = c.nonce ≡ n
CountedRead n (err e, c) = c.nonce ≡ n
CountedRead n (panic, c) = c.nonce ≡ n

module _ (crypto : Suite) (tokio : Io) where
  open tokio use {Stream, read_exact}

  opened :
      (key : Bytes) (n : ℕ) (s : Stream) (r : Outcome Bytes)
      → CountedRead n (
          continue
            (λ ct. lift (unseal crypto key n ct) >>= λ plain. count_frame >> pure (some plain))
            r
            (record { stream = s; nonce = n }))
  opened key n s (err e) = refl
  opened key n s panic = refl
  opened key n s (ok ct) = counted (unseal crypto key n ct)
    where
      counted :
          (r : Outcome Bytes)
          → CountedRead n (
              continue
                (λ plain. count_frame >> pure (some plain))
                r
                (record { stream = s; nonce = n }))
      counted (ok plain) = refl
      counted (err e) = refl
      counted panic = refl

  frame_body :
      (key : Bytes) (start : Option Bytes) (c : Channel Stream)
      → CountedRead c.nonce (read_frame_body crypto tokio key start c)
  unfolding read_frame_body
  frame_body key none c = refl
  frame_body key (some len_buf) c =
      let frame_len : ℕ = from_be_bytes (get_or len_buf 0 0) (get_or len_buf 1 0) in
      elim (Bool-cases (ltb frame_len tag_len)) [
        | inl e ↦ rw e refl
        | inr e ↦ rw e (let (r, s) = read_exact frame_len c.stream in opened key c.nonce s r)
      ]

  -- A frame that is read takes one count; the end of the stream, a frame that is cut off, too short
  -- or does not open takes none.
  pub read_encrypted_frame-CountedRead :
      (key : Bytes) (c : Channel Stream)
      → CountedRead c.nonce (read_encrypted_frame crypto tokio key c)
  unfolding read_encrypted_frame
  read_encrypted_frame-CountedRead key c = let (r, s) = read_exact 2 c.stream in started (ended r) s
    where
      started :
          (r : Outcome (Option Bytes)) (s : Stream)
          → CountedRead c.nonce (
              continue
                (read_frame_body crypto tokio key)
                r
                (record { stream = s; nonce = c.nonce }))
      started (ok start) s = frame_body key start (record { stream = s; nonce = c.nonce })
      started (err e) s = refl
      started panic s = refl
