-- ===== src/Crypto/Untrusted.antt =====
-- The inward loop on whatever bytes arrive, and on those of a sender who is impersonated.
pub mod Between
mod Tests
use vs_vpn.Prelude.{
  ℕ, zero, suc, ◌+◌, ◌%◌, ◌^◌, ◌≤◌, ◌<◌, ◌≡◌, ◌⊎◌, inl, inr, refl, ap, sym, ◌∙◌, [], ◌∷◌, ◌++◌,
  append_assoc, append-nil, arith, Bytes, List, false, Option, some, length, length-append, take,
  drop, get_elem?, get_elem?-lt, get_elem?-drop, flat, true, leb, if◌then◌else◌, take-append,
  drop-append, All, subst,
}
use vs_vpn.Outcome.{Outcome, ok, err, Error, operation_read}
use vs_vpn.Act.{repeat, repeat-break, repeat_again, relabel}
use vs_vpn.Io.{Io, Wire}
use vs_vpn.Std.Words.{from_be_bytes}
use vs_vpn.Crypto.Primitives.{Suite}
use vs_vpn.Crypto.{unseal, Channel, Relay, deliver, receive_round, relay_encrypted_to_plain}
use vs_vpn.Crypto.Frames.{after}
use vs_vpn.Crypto.Reading.{
  HasNoFrame, HasNoFrame-short, at_end, refused, opened, read_encrypted_frame-cases,
}
use vs_vpn.Crypto.Stream.{IsReady}

-- `Opens key n wire plains`: the bytes are frames, and each opens under the key and its counter.
pub data Opens (crypto : Suite) (key : Bytes) : ℕ → Bytes → List Bytes → Type 0 where
  nothing : {n : ℕ} → Opens crypto key n [] []
  opens :
      {n : ℕ} {wire : Bytes} {plains : List Bytes} (hi lo : ℕ) (ciphertext plaintext : Bytes)
      → from_be_bytes hi lo ≡ length ciphertext
      → unseal crypto key n ciphertext ≡ ok plaintext
      → Opens crypto key (after n) wire plains
      → Opens crypto key n (hi ∷ lo ∷ (ciphertext ++ wire)) (plaintext ∷ plains)

-- The counter behind some frames
abbrev pub advanced : ℕ → List Bytes → ℕ
advanced n [] = n
advanced n (plain ∷ plains) = advanced (after n) plains

-- A loop that has ended: in order, with less than a length field left, or with an error, and more left.
abbrev pub Ended : {S : Type 0} → Outcome (Option (Unit {0})) × S → S → Bytes → Type 0
Ended run s' left =
    ((run ≡ (ok (some tt), s')) × (length left < 2))
    ⊎ ((2 ≤ length left) × (e : Error) × (run ≡ (err e, s')))

repeat-err :
    {S : Type 0} (rounds : ℕ) (body : S → Outcome _ × S) (s s' : S) (e : Error)
    → body s ≡ (err e, s')
    → repeat (suc rounds) body s ≡ (err e, s')
unfolding repeat
repeat-err rounds body s s' e h = rw h refl

module _ (crypto : Suite) (tokio : Io) (wire : Wire tokio) where
  open tokio use {Stream}

  -- Whatever bytes arrive, with a closed source, a sink that takes what is written and more rounds than
  -- bytes, the second loop ends. It has written exactly what the frames at the front of the bytes hold,
  -- each opened under the key and its own counter, and it has stopped at no frame that opens: what is left
  -- behind them does not begin with a whole frame, of 16 bytes at least, that opens under the key and the
  -- next counter. It ends in order where less than a length field is left, and with an error otherwise.
  pub relay_encrypted_to_plain-Opens :
      (key : Bytes) (rounds : ℕ) (r : Relay Stream)
      → IsReady tokio wire r
      → length (wire.arrived r.reader) < rounds
      → (r' : Relay Stream) × (front : Bytes) × (left : Bytes) × (plains : List Bytes)
        × (wire.arrived r.reader ≡ front ++ left)
        × Opens crypto key r.nonce front plains
        × (wire.sent r'.writer ≡ wire.sent r.writer ++ flat plains)
        × HasNoFrame crypto key (advanced r.nonce plains) left
        × Ended (relay_encrypted_to_plain crypto tokio rounds key r) r' left
  unfolding relay_encrypted_to_plain
  relay_encrypted_to_plain-Opens key zero r ready h = absurd (omega arith)
  relay_encrypted_to_plain-Opens key (suc rounds) r ready h =
      elim (read_encrypted_frame-cases crypto tokio wire key
        (record { stream = r.reader; nonce = r.nonce }) ready.closed) [
          | at_end s' short end ↦ (
            record r { reader = s' },
            [],
            wire.arrived r.reader,
            [],
            refl,
            nothing,
            sym (append-nil (wire.sent r.writer)),
            HasNoFrame-short crypto key r.nonce (wire.arrived r.reader) short,
            inl (
              repeat-break rounds (receive_round crypto tokio key) r _
                  (unfold receive_round deliver in rw end refl),
              short,
            ),
          )
          | refused c' e bad two no_frame ↦ (
            record { reader = c'.stream; writer = r.writer; nonce = c'.nonce },
            [],
            wire.arrived r.reader,
            [],
            refl,
            nothing,
            sym (append-nil (wire.sent r.writer)),
            no_frame,
            inr (
              two,
              relabel operation_read e,
              repeat-err rounds (receive_round crypto tokio key) r _ _
                  (unfold receive_round deliver in rw bad refl),
            ),
          )
          | opened hi lo ct pt more s₁ arrived size good got a₁ c₁ ↦
              let (s₂, wrote, sent₂, _, _, acc₂) =
                wire.write_all_accepting r.writer pt ready.accepting in
              let r₁ : Relay Stream = record { reader = s₁; writer = s₂; nonce = after r.nonce } in
              let (r', front, left, plains, split, fs, sent', no_frame, last) =
                relay_encrypted_to_plain-Opens key rounds r₁
                  (record { accepting = acc₂; closed = c₁ })
                  (omega (arith, ap length arrived, ap length a₁, length-append ct more)) in
              let step : receive_round crypto tokio key r ≡ (ok false, r₁) =
                unfold receive_round deliver in rw (got, wrote) refl in
              (
                r',
                hi ∷ lo ∷ (ct ++ front),
                left,
                pt ∷ plains,
                arrived
                    ∙ ap (λ xs. hi ∷ lo ∷ (ct ++ xs)) (sym a₁ ∙ split)
                    ∙ sym (ap (λ xs. hi ∷ lo ∷ xs) (append_assoc ct front left)),
                opens hi lo ct pt size good fs,
                rw (sent', sent₂) (append_assoc (wire.sent r.writer) pt (flat plains)),
                no_frame,
                rw (repeat_again rounds (receive_round crypto tokio key) r r₁ step) last,
              )
        ]

-- The ciphertexts of bytes that are cut at the length fields; a frame that is not whole ends them. Each
-- takes two bytes and more, so the number of the bytes is enough as fuel.
unfoldable pub ciphertexts : ℕ → Bytes → List Bytes
ciphertexts zero bytes = []
ciphertexts (suc fuel) [] = []
ciphertexts (suc fuel) (x ∷ []) = []
ciphertexts (suc fuel) (hi ∷ lo ∷ rest) =
    let later = ciphertexts fuel (drop (from_be_bytes hi lo) rest) in
    if leb (from_be_bytes hi lo) (length rest) then take (from_be_bytes hi lo) rest ∷ later else []

ciphertexts-cons :
    (fuel hi lo : ℕ) (ct rest : Bytes)
    → from_be_bytes hi lo ≡ length ct
    → ciphertexts (suc fuel) (hi ∷ lo ∷ (ct ++ rest)) ≡ ct ∷ ciphertexts fuel rest
unfolding ciphertexts
ciphertexts-cons fuel hi lo ct rest size =
    rw (size, fits, take-append ct rest, drop-append ct rest) refl
  where
    fits : leb (length ct) (length (ct ++ rest)) ≡ true
    fits = ground (arith, length-append ct rest)

-- A ciphertext that opens only as a sender who counts from `n` has sealed it: under a counter, to the
-- text of that counter.
abbrev pub IsSealed :
    (crypto : Suite) (key : Bytes) (n : ℕ) (log : List Bytes) (ciphertext : Bytes) → Type 0
IsSealed crypto key n log ciphertext =
    (i : ℕ) (plaintext : Bytes)
    → i < 2 ^ 64
    → unseal crypto key i ciphertext ≡ ok plaintext
    → (j : ℕ) × (get_elem? log j ≡ some plaintext) × (i ≡ (n + j) % 2 ^ 64)

-- Of the ciphertexts in the bytes none opens but as that sender has sealed it.
pub record IsUnforged (crypto : Suite) (key : Bytes) (n : ℕ) (log : List Bytes) (arrived : Bytes)
    : Type 0 where
  pub few : length log < 2 ^ 64
  pub sealed : All (IsSealed crypto key n log) (ciphertexts (length arrived) arrived)

module _ (crypto : Suite) (key : Bytes) (n : ℕ) (log : List Bytes) (few : length log < 2 ^ 64) where
  -- Frames from the counter of the k-th text on hold the texts from the k-th on.
  Opens-in_order :
      (fuel : ℕ) {i : ℕ} {bytes : Bytes} {plains : List Bytes} (left : Bytes) (k : ℕ)
      → length (bytes ++ left) ≤ fuel
      → All (IsSealed crypto key n log) (ciphertexts fuel (bytes ++ left))
      → i ≡ (n + k) % 2 ^ 64
      → k ≤ length log
      → Opens crypto key i bytes plains
      → (plains ≡ take (length plains) (drop k log)) × (k + length plains ≤ length log)
  Opens-in_order fuel left k long sealed at_k h nothing = (refl, omega arith)
  Opens-in_order zero left k long sealed at_k h (opens hi lo ct pt size good fs) =
      absurd (omega arith)
  Opens-in_order (suc fuel) left k long sealed at_k h
        (opens {wire} {plains} hi lo ct pt size good fs) =
      let (this, others) =
        subst (All (IsSealed crypto key n log))
          (ap (λ xs. ciphertexts (suc fuel) (hi ∷ lo ∷ xs)) (append_assoc ct wire left)
            ∙ ciphertexts-cons fuel hi lo ct (wire ++ left) size)
          sealed in
      let (j, found, at_j) = this _ pt (omega arith) good in
      let inside : j < length log = get_elem?-lt log j pt found in
      let here : j ≡ k = omega (arith, few) in
      let (rest, bound) =
        Opens-in_order fuel left (suc k)
          (omega (
            arith,
            length-append (ct ++ wire) left,
            length-append ct wire,
            length-append wire left,
          ))
          others (ap after at_k ∙ omega arith) (omega arith) fs in
      let front : drop k log ≡ pt ∷ drop (suc k) log = get_elem?-drop log k pt (rw here at found) in
      (rw front (ap (λ xs. pt ∷ xs) rest), omega (arith, bound))

module _ (crypto : Suite) (tokio : Io) (wire : Wire tokio) where
  open tokio use {Stream}

  -- Where none of the ciphertexts that arrive opens but as a sender has sealed it, under its own counter
  -- to its own text, of fewer than 2 ^ 64, and the reader starts at the sender's first counter: with a
  -- closed source, a sink that takes what is written and more rounds than bytes, the second loop ends, and
  -- what it has written is the first k texts of the sender for some k. In whatever order or number the
  -- frames arrive, none is written changed, repeated, moved or behind a gap.
  pub relay_encrypted_to_plain-unforged :
      (key : Bytes) (rounds : ℕ) (r : Relay Stream) (log : List Bytes)
      → IsUnforged crypto key r.nonce log (wire.arrived r.reader)
      → r.nonce < 2 ^ 64
      → IsReady tokio wire r
      → length (wire.arrived r.reader) < rounds
      → (r' : Relay Stream) × (k : ℕ) × (front : Bytes) × (left : Bytes) × (k ≤ length log)
        × (wire.arrived r.reader ≡ front ++ left)
        × (wire.sent r'.writer ≡ wire.sent r.writer ++ flat (take k log))
        × Ended (relay_encrypted_to_plain crypto tokio rounds key r) r' left
  relay_encrypted_to_plain-unforged key rounds r log unforged small ready h =
      let (r', front, left, plains, split, fs, sent, _, last) =
        relay_encrypted_to_plain-Opens crypto tokio wire key rounds r ready h in
      let (same, bound) =
        Opens-in_order crypto key r.nonce log unforged.few (length (wire.arrived r.reader)) left 0
          (omega (arith, ap length split))
          (subst
            (λ xs.
              All (IsSealed crypto key r.nonce log)
                (ciphertexts (length (wire.arrived r.reader)) xs))
            split unforged.sealed)
          (omega arith) (omega arith) fs in
      (
        r',
        length plains,
        front,
        left,
        omega (arith, bound),
        split,
        sent ∙ ap (λ ps. wire.sent r.writer ++ flat ps) same,
        last,
      )
