-- ===== src/Crypto/Untrusted/Between.antt =====
-- The two relay loops with an adversary between them, who sends the second one what frames it likes.
use vs_vpn.Prelude.{
  ℕ, ◌/◌, ◌%◌, ◌^◌, ◌<◌, ◌≡◌, refl, ap, sym, subst, ◌∙◌, [], ◌∷◌, ◌++◌, append_cancel_left,
  append_left, arith, Bytes, List, some, length, take, drop, get_or, flat, flat-take-drop,
}
use vs_vpn.Outcome.{ok, ok_injective}
use vs_vpn.Io.{Io, Wire}
use vs_vpn.Std.Words.{to_be_bytes, from_be_bytes, from_be_bytes-to_be_bytes}
use vs_vpn.Crypto.Primitives.{Suite, IsAead}
use vs_vpn.Crypto.{unseal, key_len, Relay, relay_plain_to_encrypted, relay_encrypted_to_plain}
use vs_vpn.Crypto.Rounds.{Frames, no_more, frame}
use vs_vpn.Crypto.Stream.{IsReady, relay_plain_to_encrypted_ends}
use vs_vpn.Crypto.Untrusted.{
  Opens, nothing, opens, Ended, IsUnforged, relay_encrypted_to_plain-unforged,
}

-- The texts of the frames that a sender has made
Frames-Opens :
    (crypto : Suite) (key : Bytes) {n m : ℕ} {bytes plain : Bytes}
    → Frames crypto key n bytes plain m
    → (log : List Bytes) × Opens crypto key n bytes log × (flat log ≡ plain)
unfolding to_be_bytes
Frames-Opens crypto key no_more = ([], nothing, refl)
Frames-Opens crypto key (frame {wire} ct pt tagged short opened fs) =
    let (log, more, all) = Frames-Opens crypto key fs in
    let n : ℕ = length ct % 2 ^ 16 in
    let size : from_be_bytes (n / 256 % 256) (n % 256) ≡ length ct =
      from_be_bytes-to_be_bytes n (omega arith) ∙ omega arith in
    (pt ∷ log, opens (n / 256 % 256) (n % 256) ct pt size opened more, ap (λ xs. pt ++ xs) all)

-- The bytes and the counter decide what the frames hold.
pub Opens-unique :
    (crypto : Suite) (key : Bytes) {n : ℕ} {bytes bytes' : Bytes} {log log' : List Bytes}
    → Opens crypto key n bytes log
    → Opens crypto key n bytes' log'
    → bytes ≡ bytes'
    → log ≡ log'
Opens-unique crypto key nothing nothing e = refl
Opens-unique crypto key nothing (opens hi lo ct pt size good fs) e = absurd (cc)
Opens-unique crypto key (opens hi lo ct pt size good fs) nothing e = absurd (cc)
Opens-unique crypto key {n} (opens {wire} {plains} hi lo ct pt size good fs)
      (opens {wire = wire'} {plains = plains'} hi' lo' ct' pt' size' good' fs') e =
    let behind : ct ++ wire ≡ ct' ++ wire' = ap (drop 2) e in
    let same_size : length ct ≡ length ct' =
      sym size ∙ ap (λ xs. from_be_bytes (get_or xs 0 0) (get_or xs 1 0)) e ∙ size' in
    let same_ct : ct ≡ ct' = append_left ct wire ct' wire' same_size behind in
    let same_rest : wire ≡ wire' =
      append_cancel_left ct' wire wire' (ap (λ xs. xs ++ wire) (sym same_ct) ∙ behind) in
    let same_pt : pt ≡ pt' = ok_injective (sym good ∙ ap (unseal crypto key n) same_ct ∙ good') in
    rw (same_pt, Opens-unique crypto key fs fs' same_rest) refl

module _ (crypto : Suite) (laws : IsAead crypto) (tokio : Io) (wire : Wire tokio) where
  open tokio use {Stream}

  -- An adversary between the two loops cannot make up a stream. The first loop, with a key of 32 bytes, a
  -- counter below 2 ^ 64 and more rounds than its source has bytes, has ended and written some bytes. Where
  -- of the ciphertexts that then arrive at the second loop, in any order and number, none opens under this
  -- key but as these bytes have it, under its own counter and of fewer than 2 ^ 64, the second loop, which
  -- begins with the same key and counter, ends with more rounds than there are bytes, and what it has
  -- written is a front of what the source of the first held. (Both sources are closed, both sinks take what is written.)
  pub relay-unforged :
      (key bytes : Bytes) (r r' q : Relay Stream) (rounds rounds' : ℕ)
      → length key ≡ key_len
      → r.nonce < 2 ^ 64
      → IsReady tokio wire r
      → length (wire.arrived r.reader) < rounds
      → relay_plain_to_encrypted crypto tokio rounds key r ≡ (ok (some tt), r')
      → wire.sent r'.writer ≡ wire.sent r.writer ++ bytes
      → ((log : List Bytes)
          → Opens crypto key r.nonce bytes log
          → IsUnforged crypto key r.nonce log (wire.arrived q.reader))
      → IsReady tokio wire q
      → q.nonce ≡ r.nonce
      → length (wire.arrived q.reader) < rounds'
      → (q' : Relay Stream) × (written : Bytes) × (lost : Bytes) × (front : Bytes) × (left : Bytes)
        × (wire.arrived r.reader ≡ written ++ lost)
        × (wire.sent q'.writer ≡ wire.sent q.writer ++ written)
        × (wire.arrived q.reader ≡ front ++ left)
        × Ended (relay_encrypted_to_plain crypto tokio rounds' key q) q' left
  relay-unforged key bytes r r' q rounds rounds' hk small ready h run wrote unforged ready' hn h' =
      let (r₁, bytes₁, run₁, wrote₁, frames) =
        relay_plain_to_encrypted_ends crypto laws tokio wire key r rounds hk ready h in
      let same : r₁ ≡ r' = ap (λ p. p.1) (sym run₁ ∙ run) in
      let same_bytes : bytes₁ ≡ bytes =
        append_cancel_left (wire.sent r.writer) _ _
          (sym wrote₁ ∙ ap (λ (x : Relay Stream). wire.sent x.writer) same ∙ wrote) in
      let (log, sealed, all) = Frames-Opens crypto key frames in
      let only : IsUnforged crypto key q.nonce log (wire.arrived q.reader) =
        subst (λ (n : ℕ). IsUnforged crypto key n log (wire.arrived q.reader)) (sym hn)
          (unforged log (subst (λ xs. Opens crypto key r.nonce xs log) same_bytes sealed)) in
      let (q', k, front, left, _, split, sent, ended) =
        relay_encrypted_to_plain-unforged crypto tokio wire key rounds' q log only (omega arith)
          ready' h' in
      (
        q',
        flat (take k log),
        flat (drop k log),
        front,
        left,
        sym all ∙ sym (flat-take-drop k log),
        sent,
        split,
        ended,
      )
