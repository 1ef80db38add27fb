-- ===== src/Tunnel/Encrypted/Duplex/Tests.antt =====
-- The theorems on two relaying ends at a concrete start and after a few steps, over pipes in memory.
use vs_vpn.Prelude.{◌≡◌, arith, refl, [], ◌∷◌, ◌++◌, Bytes, true, false, none, some, replicate}
use vs_vpn.Outcome.{ok}
use vs_vpn.Io.Pipe.{End, holding, pipe, pipe_wire}
use vs_vpn.Crypto.Toy.{toy, toy_laws}
use vs_vpn.Crypto.Nonces.{AllDifferent}
use vs_vpn.Crypto.Rounds.{Frames}
use vs_vpn.Tunnel.{outward, inward, race}
use vs_vpn.Crypto.{send_round, receive_round}
use vs_vpn.Tunnel.Encrypted.{
  EncryptedTunnel, Both, relay_bidirectional, start_relay, outwards, inwards, send_key, recv_key,
  send_nonce, recv_nonce,
}
use vs_vpn.Tunnel.Encrypted.Pairing.{Paired}
use vs_vpn.Tunnel.Encrypted.HalfClose.{relay_bidirectional-half_close}
use vs_vpn.Tunnel.Encrypted.Duplex.{System, flip, Arrives, send, Reach, here, later, after_send}
use vs_vpn.Tunnel.Encrypted.Duplex.Order.{IsFresh, Reach-prefix}
use vs_vpn.Tunnel.Encrypted.Duplex.Sealing.{BothSealed, Reach-BothSealed}
use vs_vpn.Tunnel.Encrypted.Duplex.Start.{relays, Paired-IsFresh}
use vs_vpn.Tunnel.Encrypted.Duplex.Progress.{GoesOn, Reach-GoesOn, Reach-delivers}

abbrev client : EncryptedTunnel End
client = record {
  stream = some (holding []);
  client_key = replicate 32 1;
  server_key = replicate 32 2;
  c_nonce = 3;
  s_nonce = 5;
  is_client = true;
}

abbrev server : EncryptedTunnel End
server = record client { is_client = false }

client-Paired : Paired client server
client-Paired = record {
  sides = refl;
  client_keys = refl;
  server_keys = refl;
  c_counters = refl;
  s_counters = refl;
  client_whole = refl;
  server_whole = refl;
}

-- The application behind the client has sent three bytes.
abbrev start : System End
start =
    relays pipe pipe_wire client server (holding []) (holding []) (holding (1 ∷ 2 ∷ 3 ∷ []))
      (holding []) [] []

start-IsFresh : IsFresh toy toy_laws pipe pipe_wire start
start-IsFresh =
    Paired-IsFresh toy toy_laws pipe pipe_wire client server (holding []) (holding [])
      (holding (1 ∷ 2 ∷ 3 ∷ [])) (holding []) client-Paired refl refl refl refl refl refl

-- A frame leaves.
abbrev sent : System End
sent = after_send toy pipe pipe_wire start

sent-Reach : Reach toy pipe pipe_wire start sent
sent-Reach = later here (send start (λ e. cc))

Reach-prefix_example :
    (to_b : Bytes) × (to_a : Bytes) × (ahead_b : Bytes) × (ahead_a : Bytes) × (sent.b.external.sent
      ≡ [] ++ to_b)
    × (sent.given_a ≡ to_b ++ ahead_b)
    × (sent.a.external.sent ≡ [] ++ to_a)
    × (sent.given_b ≡ to_a ++ ahead_a)
Reach-prefix_example = Reach-prefix toy toy_laws pipe pipe_wire start sent start-IsFresh sent-Reach

Reach-GoesOn_example :
    GoesOn toy toy_laws pipe pipe_wire sent × GoesOn toy toy_laws pipe pipe_wire (flip sent)
Reach-GoesOn_example = Reach-GoesOn toy toy_laws pipe pipe_wire start sent start-IsFresh sent-Reach

Reach-BothSealed_example :
    (i : BothSealed toy pipe pipe_wire start sent) × AllDifferent i.forth.nonces
    × AllDifferent i.back.nonces
Reach-BothSealed_example =
    Reach-BothSealed toy toy_laws pipe pipe_wire start sent start-IsFresh (omega arith)
      (omega arith) sent-Reach (omega arith) (omega arith)

brings : (x : End) (more : Bytes) → (x' : End) × Arrives toy pipe pipe_wire x more x'
brings x more = (
  record x { arrived = x.arrived ++ more },
  record { arrived = refl; sent = refl; accepting = refl },
)

Reach-delivers_example :
    (u : System End) × Reach toy pipe pipe_wire sent u
    × (u.given_a ≡ sent.given_a)
    × (u.b.external.sent ≡ [] ++ sent.given_a)
Reach-delivers_example =
    Reach-delivers toy toy_laws pipe pipe_wire start sent start-IsFresh sent-Reach brings

abbrev waiting : EncryptedTunnel End
waiting = record client { stream = some (holding (0 ∷ 19 ∷ [])) }

-- Two bytes, and nothing more to come.
abbrev asking : End
asking = holding (8 ∷ 9 ∷ [])

relay_bidirectional-half_close_example :
    (t' : EncryptedTunnel End) × (end : Both End) × (bytes : Bytes) × (race
        (outwards (send_round toy pipe (send_key waiting)))
        (inwards (receive_round toy pipe (recv_key waiting)))
        (replicate 3 outward ++ inward ∷ [])
        (start_relay waiting (holding (0 ∷ 19 ∷ [])) asking)
      ≡ (ok (some tt), end))
    × (relay_bidirectional toy pipe (replicate 3 outward ++ inward ∷ []) (waiting, asking)
        ≡ (ok (some tt), (t', end.external)))
    × (t'.stream ≡ none)
    × (end.tunnel.sent ≡ [] ++ bytes)
    × Frames toy (send_key waiting) 3 bytes (8 ∷ 9 ∷ []) (send_nonce t')
    × (recv_nonce t' ≡ 5)
    × (end.external.sent ≡ [])
relay_bidirectional-half_close_example =
    relay_bidirectional-half_close toy toy_laws pipe pipe_wire 3 (inward ∷ []) waiting
      (holding (0 ∷ 19 ∷ [])) asking refl refl refl refl (omega arith)
