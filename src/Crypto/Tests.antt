-- ===== src/Crypto/Tests.antt =====
-- Runs of the frames and loops over a pipe, and the theorems at concrete inputs.
use vs_vpn.Prelude.{◌≡◌, refl, [], ◌∷◌, ◌++◌, Bytes, true, false, some, replicate, length, arith}
use vs_vpn.Outcome.{ok}
use vs_vpn.Io.Pipe.{End, pipe, pipe_wire}
use vs_vpn.Std.Words.{to_be_bytes, to_le_bytes}
use vs_vpn.Act.{repeat}
use vs_vpn.Crypto.Toy.{toy, toy_laws}
use vs_vpn.Crypto.{
  Relay, relay_plain_to_encrypted, relay_encrypted_to_plain, send_round, send_chunk,
  write_encrypted_frame, seal, full_nonce, secure_handshake,
}
use vs_vpn.Crypto.Rounds.{Frames}
use vs_vpn.Crypto.Stream.{relay_plain_to_encrypted_ends, relay_round_trip}
use vs_vpn.Crypto.Handshake.{secure_handshake_agree}

abbrev key : Bytes
key = replicate 32 9

abbrev source : Relay End
source = record {
  reader = record { arrived = 1 ∷ 2 ∷ 3 ∷ []; sent = [] };
  writer = record { arrived = []; sent = [] };
  nonce = 0;
}

abbrev on_the_wire : Bytes
on_the_wire = 0 ∷ 19 ∷ 1 ∷ 2 ∷ 3 ∷ replicate 16 0

abbrev source_after : Relay End
source_after = record {
  reader = record { arrived = []; sent = [] };
  writer = record { arrived = []; sent = on_the_wire };
  nonce = 1;
}

abbrev sink : Relay End
sink = record {
  reader = record { arrived = on_the_wire; sent = [] };
  writer = record { arrived = []; sent = 8 ∷ [] };
  nonce = 0;
}

sent_run : relay_plain_to_encrypted toy pipe 4 key source ≡ (ok (some tt), source_after)
unfolding relay_plain_to_encrypted repeat send_round send_chunk write_encrypted_frame seal
    full_nonce to_le_bytes to_be_bytes
sent_run = refl

relay_plain_to_encrypted_ends_example :
    (r' : Relay End) × (bytes : Bytes) × (relay_plain_to_encrypted toy pipe 4 key source
      ≡ (ok (some tt), r'))
    × (r'.writer.sent ≡ [] ++ bytes)
    × Frames toy key 0 bytes (1 ∷ 2 ∷ 3 ∷ []) r'.nonce
relay_plain_to_encrypted_ends_example =
    relay_plain_to_encrypted_ends toy toy_laws pipe pipe_wire key source 4 refl
      (record { accepting = refl; closed = refl }) (omega arith)

relay_round_trip_example :
    (q' : Relay End) × (relay_encrypted_to_plain toy pipe 30 key sink ≡ (ok (some tt), q'))
    × (q'.writer.sent ≡ 8 ∷ 1 ∷ 2 ∷ 3 ∷ [])
    × (q'.nonce ≡ 1)
relay_round_trip_example =
    relay_round_trip toy toy_laws pipe pipe_wire key on_the_wire source source_after sink 4 30 refl
      (record { accepting = refl; closed = refl }) (omega arith) sent_run refl
      (record { accepting = refl; closed = refl }) refl refl (omega arith)

-- The handshake of the client, after whose write the server's nonce is there, and of the server.
abbrev client_end : End
client_end = record { arrived = replicate 32 2; sent = [] }

abbrev client_wrote : End
client_wrote = record { arrived = replicate 32 2; sent = replicate 32 1 }

abbrev server_end : End
server_end = record { arrived = replicate 32 1 ++ (5 ∷ []); sent = [] }

secure_handshake_agree_example :
    (ck : Bytes) × (sk : Bytes) × (c' : End) × (s' : End) × (secure_handshake toy pipe key
        (replicate 32 1)
        true
        client_end
      ≡ (ok (ck, sk), c'))
    × (secure_handshake toy pipe key (replicate 32 2) false server_end ≡ (ok (ck, sk), s'))
    × (length ck ≡ 32)
    × (length sk ≡ 32)
    × (c'.arrived ≡ [])
    × (s'.arrived ≡ 5 ∷ [])
    × (s'.sent ≡ [] ++ replicate 32 2)
secure_handshake_agree_example =
    secure_handshake_agree toy toy_laws pipe pipe_wire key (replicate 32 1) (replicate 32 2) []
      (5 ∷ []) client_end client_wrote server_end refl refl refl refl refl refl
