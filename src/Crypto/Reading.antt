-- ===== src/Crypto/Reading.antt =====
-- `read_encrypted_frame` and a round of the inward loop on any bytes at all.
use vs_vpn.Prelude.{
  ℕ, ◌≤◌, ◌<◌, ◌≡◌, refl, ap, sym, subst, head_eq, ◌++◌, length-append, take-append, ◌∙◌, [], ◌∷◌,
  arith, Bytes, true, none, some, length, take, drop, length-take, take-append-drop, ltb, ltb→lt,
  ltb→le, Bool-cases, Option-cases, ◌⊎◌, inl, inr,
}
use vs_vpn.Outcome.{
  Outcome, ok, err, io, unexpected_eof, invalid_key, frame_too_short, decryption_error, Error,
}
use vs_vpn.Io.{Io, Wire}
use vs_vpn.Std.Words.{from_be_bytes}
use vs_vpn.Crypto.Primitives.{Suite}
use vs_vpn.Crypto.{
  tag_len, io_err, full_nonce, unseal, Channel, read_encrypted_frame, read_frame_body,
}
use vs_vpn.Crypto.Frames.{after}

-- A text under a counter is opened or refused.
unseal-cases :
    (crypto : Suite) (key : Bytes) (n : ℕ) (ct : Bytes)
    → ((pt : Bytes) × (unseal crypto key n ct ≡ ok pt))
      ⊎ ((e : Error) × (unseal crypto key n ct ≡ err e))
unfolding unseal
unseal-cases crypto key n ct = elim (Option-cases (crypto.new_from_slice key)) [
  | inl e ↦ inr (io_err invalid_key, rw (e, unseal) refl)
  | inr (cipher, e) ↦ elim (Option-cases (crypto.decrypt cipher (full_nonce n) ct)) [
    | inl d ↦ inr (io_err (decryption_error n), rw (e, unseal, d) refl)
    | inr (pt, d) ↦ inl (pt, rw (e, unseal, d) refl)
  ]
]

-- The bytes do not begin with a whole frame, of at least the sixteen bytes of a tag, that opens under the key and the counter.
abbrev pub HasNoFrame : (crypto : Suite) (key : Bytes) (n : ℕ) (arrived : Bytes) → Type 0
HasNoFrame crypto key n arrived =
    (hi lo : ℕ) (ciphertext more plaintext : Bytes)
    → arrived ≡ hi ∷ lo ∷ (ciphertext ++ more)
    → from_be_bytes hi lo ≡ length ciphertext
    → 16 ≤ length ciphertext
    → unseal crypto key n ciphertext ≡ ok plaintext
    → ⊥

pub HasNoFrame-short :
    (crypto : Suite) (key : Bytes) (n : ℕ) (arrived : Bytes)
    → length arrived < 2
    → HasNoFrame crypto key n arrived
HasNoFrame-short crypto key n arrived few hi lo ct more pt e size tagged opens_ =
    absurd (omega (arith, few, ap length e))

-- Where two bytes stand in front, it is enough to look at the length that they tell.
HasNoFrame-cons :
    (crypto : Suite) (key : Bytes) (n hi lo : ℕ) (rest : Bytes)
    → ((ciphertext more plaintext : Bytes)
        → rest ≡ ciphertext ++ more
        → from_be_bytes hi lo ≡ length ciphertext
        → 16 ≤ length ciphertext
        → unseal crypto key n ciphertext ≡ ok plaintext
        → ⊥)
    → HasNoFrame crypto key n (hi ∷ lo ∷ rest)
HasNoFrame-cons crypto key n hi lo rest no_frame hi' lo' ct more pt e size tagged opens_ =
    no_frame ct more pt (ap (drop 2) e)
      (ap (λ x. from_be_bytes x lo) (head_eq e)
        ∙ ap (λ x. from_be_bytes hi' x) (head_eq (ap (drop 1) e))
        ∙ size)
      tagged opens_

module _ (crypto : Suite) (tokio : Io) (wire : Wire tokio) where
  open tokio use {Stream}

  -- The three ways in which a read on a closed stream comes out.
  pub data Reading (key : Bytes) (c : Channel Stream) : Type 0 where
    at_end :
        (s' : Stream)
        → length (wire.arrived c.stream) < 2
        → read_encrypted_frame crypto tokio key c ≡ (ok none, record c { stream = s' })
        → Reading key c
    refused :
        (c' : Channel Stream) (e : Error)
        → read_encrypted_frame crypto tokio key c ≡ (err e, c')
        → 2 ≤ length (wire.arrived c.stream)
        → HasNoFrame crypto key c.nonce (wire.arrived c.stream)
        → Reading key c
    opened :
        (hi lo : ℕ) (ciphertext plaintext more : Bytes) (s' : Stream)
        → wire.arrived c.stream ≡ hi ∷ lo ∷ (ciphertext ++ more)
        → from_be_bytes hi lo ≡ length ciphertext
        → unseal crypto key c.nonce ciphertext ≡ ok plaintext
        → read_encrypted_frame crypto tokio key c
          ≡ (ok (some plaintext), record { stream = s'; nonce = after c.nonce })
        → wire.arrived s' ≡ more
        → wire.closed s' ≡ true
        → Reading key c

  body-Reading :
      (key : Bytes) (c : Channel Stream) (s₁ : Stream) (hi lo : ℕ) (rest : Bytes)
      → tokio.read_exact 2 c.stream ≡ (ok (hi ∷ lo ∷ []), s₁)
      → wire.arrived c.stream ≡ hi ∷ lo ∷ rest
      → wire.arrived s₁ ≡ rest
      → wire.closed s₁ ≡ true
      → Reading key c
  unfolding read_encrypted_frame read_frame_body
  body-Reading key c s₁ hi lo rest got arrived left closed =
      elim (Bool-cases (ltb (from_be_bytes hi lo) tag_len)) [
        | inl short ↦
            refused (record c { stream = s₁ }) (io_err (frame_too_short (from_be_bytes hi lo)))
              (rw (got, short) refl) (omega (arith, ap length arrived))
              (none_opens
                (λ ct more pt e size tagged _. omega (arith, ltb→lt _ _ short, size, tagged)))
        | inr tagged ↦ elim (Bool-cases (ltb (length rest) (from_be_bytes hi lo))) [
          | inl less ↦
              let (s₂, m, cut) =
                wire.read_exact_eof s₁ (from_be_bytes hi lo) closed
                  (omega (arith, ltb→lt _ _ less, ap length left)) in
              refused (record c { stream = s₂ }) (io unexpected_eof m) (rw (got, tagged, cut) refl)
                (omega (arith, ap length arrived))
                (none_opens (λ ct more pt e size _ _.
                  omega (arith, ltb→lt _ _ less, size, ap length e, length-append ct more)))
          | inr enough ↦
              let n : ℕ = from_be_bytes hi lo in
              let size : length (take n rest) ≡ n =
                length-take n rest (omega (arith, ltb→le _ _ enough)) in
              let (s₂, read, left₂, _, closed₂, _) =
                wire.read_exact_arrived s₁ (take n rest) (drop n rest)
                  (left ∙ sym (take-append-drop n rest)) in
              let body : tokio.read_exact n s₁ ≡ (ok (take n rest), s₂) = rw size at read in
              elim (unseal-cases crypto key c.nonce (take n rest)) [
                | inl (pt, open_) ↦
                    opened hi lo (take n rest) pt (drop n rest) s₂
                      (arrived ∙ ap (λ xs. hi ∷ lo ∷ xs) (sym (take-append-drop n rest))) (sym size)
                      open_ (rw (got, tagged, body, open_) refl) left₂ (closed₂ ∙ closed)
                | inr (e, shut) ↦
                    refused (record c { stream = s₂ }) e (rw (got, tagged, body, shut) refl)
                      (omega (arith, ap length arrived))
                      (none_opens (λ ct more pt e is_size _ opens_.
                        let same : ct ≡ take n rest = sym (
                          ap (take n) e
                          ∙ ap (λ k. take k (ct ++ more)) is_size
                          ∙ take-append ct more) in
                        err-ne-ok (sym shut ∙ ap (unseal crypto key c.nonce) (sym same) ∙ opens_)))
              ]
        ]
      ]
    where
      none_opens :
          ((ciphertext more plaintext : Bytes)
            → rest ≡ ciphertext ++ more
            → from_be_bytes hi lo ≡ length ciphertext
            → 16 ≤ length ciphertext
            → unseal crypto key c.nonce ciphertext ≡ ok plaintext
            → ⊥)
          → HasNoFrame crypto key c.nonce (wire.arrived c.stream)
      none_opens no_frame =
          subst (HasNoFrame crypto key c.nonce) (sym arrived)
            (HasNoFrame-cons crypto key c.nonce hi lo rest no_frame)

      err-ne-ok : {A : Type 0} {e : Error} {a : A} → ◌≡◌ {A = Outcome A} (err e) (ok a) → ⊥
      err-ne-ok h = cc

  -- On a stream that the peer has closed, whatever has arrived: the end, a refusal, or a frame.
  pub read_encrypted_frame-cases :
      (key : Bytes) (c : Channel Stream) → wire.closed c.stream ≡ true → Reading key c
  unfolding read_encrypted_frame read_frame_body
  read_encrypted_frame-cases key c closed = by_arrived (wire.arrived c.stream) refl
    where
      by_arrived : (xs : Bytes) → wire.arrived c.stream ≡ xs → Reading key c
      by_arrived [] h =
          let (s', m, r) = wire.read_exact_eof c.stream 2 closed (rw h (omega arith)) in
          at_end s' (rw h (omega arith)) (rw r refl)
      by_arrived (x ∷ []) h =
          let (s', m, r) = wire.read_exact_eof c.stream 2 closed (rw h (omega arith)) in
          at_end s' (rw h (omega arith)) (rw r refl)
      by_arrived (hi ∷ lo ∷ rest) h =
          let (s₁, got, left, _, closed₁, _) =
            wire.read_exact_arrived c.stream (hi ∷ lo ∷ []) rest h in
          body-Reading key c s₁ hi lo rest got h left (closed₁ ∙ closed)
