-- ===== src/Crypto/Untrusted/Tests.antt =====
-- The theorems on a frame that arrives twice: the second one does not open.
use vs_vpn.Prelude.{
  ℕ, ◌<◌, ◌≡◌, ◌^◌, refl, ap, sym, ◌∙◌, inl, inr, [], ◌∷◌, ◌++◌, arith, Bytes, List, some, take,
  replicate, flat, subst, Bool-cases,
}
use vs_vpn.Outcome.{ok}
use vs_vpn.Act.{repeat}
use vs_vpn.Std.Asserts.{equal_bytes, equal_bytes-eq}
use vs_vpn.Std.Words.{le_value, to_le_bytes, to_be_bytes, from_be_bytes, le_value-to_le_bytes}
use vs_vpn.Io.Pipe.{End, holding, pipe, pipe_wire}
use vs_vpn.Crypto.Toy.{keyed, keyed_laws}
use vs_vpn.Crypto.{
  Relay, full_nonce, seal, unseal, write_encrypted_frame, send_chunk, send_round,
  relay_plain_to_encrypted, relay_encrypted_to_plain,
}
use vs_vpn.Crypto.Reading.{HasNoFrame}
use vs_vpn.Crypto.Untrusted.{
  Opens, nothing, opens, Ended, IsSealed, IsUnforged, ciphertexts, advanced,
  relay_encrypted_to_plain-Opens,
}
use vs_vpn.Crypto.Untrusted.Between.{Opens-unique, relay-unforged}

abbrev key : Bytes
key = replicate 32 9

abbrev texts : List Bytes
texts = (1 ∷ 2 ∷ 3 ∷ []) ∷ []

-- The text and its tag, and the frame of them
abbrev sealed_text : Bytes
sealed_text = 1 ∷ 2 ∷ 3 ∷ (replicate 12 0 ++ replicate 4 9)

abbrev sealed_frame : Bytes
sealed_frame = 0 ∷ 19 ∷ sealed_text

abbrev replayed : Bytes
replayed = sealed_frame ++ sealed_frame

abbrev sink : Relay End
sink = record {
  reader = holding replayed;
  writer = record { arrived = []; sent = 8 ∷ [] };
  nonce = 0;
}

counter_of :
    (i : ℕ) → i < 2 ^ 64 → replicate 12 0 ++ replicate 4 9 ≡ full_nonce i ++ replicate 4 9 → i ≡ 0
unfolding full_nonce to_le_bytes
counter_of i h e = sym (le_value-to_le_bytes i h) ∙ sym (ap (λ bs. le_value (take 8 bs)) e)

sealed_text-IsSealed : IsSealed keyed key 0 texts sealed_text
unfolding unseal
sealed_text-IsSealed i pt small h =
    elim (Bool-cases
      (equal_bytes (replicate 12 0 ++ replicate 4 9) (full_nonce i ++ replicate 4 9))) [
        | inl e ↦
            let first : i ≡ 0 = counter_of i small (equal_bytes-eq _ _ e) in
            (0, ap some (ok_eq (rw (e, keyed) at h)), omega arith)
        | inr e ↦ absurd (cc (rw (e, keyed) at h))
      ]
  where
    ok_eq : {xs ys : Bytes} → ok xs ≡ ok ys → xs ≡ ys
    ok_eq p = cc

replayed-IsUnforged : IsUnforged keyed key 0 texts replayed
unfolding ciphertexts from_be_bytes
replayed-IsUnforged = record {
  few = omega arith;
  sealed = (sealed_text-IsSealed, (sealed_text-IsSealed, tt));
}

relay_encrypted_to_plain-Opens_example :
    (r' : Relay End) × (front : Bytes) × (left : Bytes) × (plains : List Bytes) × (replayed
      ≡ front ++ left)
    × Opens keyed key 0 front plains
    × (r'.writer.sent ≡ 8 ∷ flat plains)
    × HasNoFrame keyed key (advanced 0 plains) left
    × Ended (relay_encrypted_to_plain keyed pipe 50 key sink) r' left
relay_encrypted_to_plain-Opens_example =
    relay_encrypted_to_plain-Opens keyed pipe pipe_wire key 50 sink
      (record { accepting = refl; closed = refl }) (omega arith)

-- The sender of the frame, before and after its loop
abbrev source : Relay End
source = record { reader = holding (1 ∷ 2 ∷ 3 ∷ []); writer = holding []; nonce = 0 }

abbrev source_after : Relay End
source_after = record {
  reader = holding [];
  writer = record { arrived = []; sent = sealed_frame };
  nonce = 1;
}

sent_run : relay_plain_to_encrypted keyed pipe 4 key source ≡ (ok (some tt), source_after)
unfolding relay_plain_to_encrypted repeat send_round send_chunk write_encrypted_frame seal
    full_nonce to_le_bytes to_be_bytes
sent_run = refl

sealed_frame-Opens : Opens keyed key 0 sealed_frame texts
unfolding from_be_bytes unseal full_nonce to_le_bytes
sealed_frame-Opens = opens 0 19 sealed_text (1 ∷ 2 ∷ 3 ∷ []) refl refl nothing

relay-unforged_example :
    (q' : Relay End) × (written : Bytes) × (lost : Bytes) × (front : Bytes) × (left : Bytes) × (1
        ∷ 2 ∷ 3 ∷ []
      ≡ written ++ lost)
    × (q'.writer.sent ≡ 8 ∷ written)
    × (replayed ≡ front ++ left)
    × Ended (relay_encrypted_to_plain keyed pipe 50 key sink) q' left
relay-unforged_example =
    relay-unforged keyed keyed_laws pipe pipe_wire key sealed_frame source source_after sink 4 50
      refl (omega arith) (record { accepting = refl; closed = refl }) (omega arith) sent_run refl
      (λ log sealed.
        subst (λ ts. IsUnforged keyed key 0 ts replayed)
          (Opens-unique keyed key sealed_frame-Opens sealed refl) replayed-IsUnforged)
      (record { accepting = refl; closed = refl }) refl (omega arith)
