-- ===== src/Tunnel/Tests.antt =====
-- The theorems on tunnels at concrete inputs, over pipes in memory.
use vs_vpn.Prelude.{
  ℕ, ◌%◌, ◌^◌, ◌≡◌, ◌≢◌, refl, [], ◌∷◌, ◌++◌, Bytes, true, false, Option, none, some, replicate,
  length, take, drop, length-replicate, ◌≤◌, arith,
}
use vs_vpn.Outcome.{ok}
use vs_vpn.Act.{Act}
use vs_vpn.Io.Pipe.{End, holding, pipe, pipe_wire}
use vs_vpn.Std.Words.{to_be_bytes}
use vs_vpn.Crypto.Toy.{toy, toy_laws}
use vs_vpn.Crypto.Frames.{sealed_frame}
use vs_vpn.Tunnel.Encrypted
use vs_vpn.Tunnel.Encrypted.{EncryptedTunnel, send_key, send_nonce}
use vs_vpn.Tunnel.Encrypted.Pairing.{Paired, recv_frame-send_frame, new-Paired}
use vs_vpn.Tunnel.Plain
use vs_vpn.Tunnel.Plain.Frames.{recv_frame-send_frame_long}
use vs_vpn.Std.Text.{strip_suffix}
use vs_vpn.Tunnel.{outward, inward, race}
use vs_vpn.Tunnel.Quic.Relay.{Runs, Carried, race-Carried}
use vs_vpn.Tunnel.Quic.HostPort.{unbracketed}
use vs_vpn.Tunnel.Quic
use vs_vpn.Tunnel.Quic.{Quinn, QuicTunnel}
use vs_vpn.Tunnel.Quic.Frames.{QuinnWire, recv_frame-send_frame_quic}
use vs_vpn.Prelude.{zero, suc, ◌<◌, sym, ap, take-append-drop}
use vs_vpn.Tunnel.Quic.End.{recv_frame-ne-none}

-- A client in the middle of a session, and its server.
abbrev client : EncryptedTunnel End
client = record {
  stream = some (holding []);
  client_key = replicate 32 1;
  server_key = replicate 32 2;
  c_nonce = 3;
  s_nonce = 5;
  is_client = true;
}

abbrev hello : Bytes
hello = b'h' ∷ b'i' ∷ []

abbrev in_flight : Bytes
in_flight = sealed_frame toy (send_key client) (send_nonce client) hello ++ (0 ∷ [])

abbrev server : EncryptedTunnel End
server = record client { stream = some (holding in_flight); is_client = false }

client-Paired : Paired client server
client-Paired = record {
  sides = refl;
  client_keys = refl;
  server_keys = refl;
  c_counters = refl;
  s_counters = refl;
  client_whole = refl;
  server_whole = refl;
}

recv_frame-send_frame_example :
    (a' : EncryptedTunnel End) × (b' : EncryptedTunnel End) × (s' : End) × (t' : End)
    × (Encrypted.send_frame toy pipe hello client ≡ (ok tt, a'))
    × (Encrypted.recv_frame toy pipe server ≡ (ok (some hello), b'))
    × (a'.stream ≡ some s')
    × (b'.stream ≡ some t')
    × (s'.sent ≡ [] ++ sealed_frame toy (send_key client) (send_nonce client) hello)
    × (t'.arrived ≡ 0 ∷ [])
    × Paired a' b'
recv_frame-send_frame_example =
    recv_frame-send_frame toy toy_laws pipe pipe_wire hello (0 ∷ []) client server (holding [])
      (holding in_flight) client-Paired refl refl refl (omega arith) refl

new-Paired_example :
    (a : EncryptedTunnel End) × (b : EncryptedTunnel End) × (Encrypted.new toy pipe
        (replicate 32 9)
        (replicate 32 1)
        true
        (holding (replicate 32 2))
      ≡ ok a)
    × (Encrypted.new toy pipe (replicate 32 9) (replicate 32 2) false (holding (replicate 32 1))
        ≡ ok b)
    × Paired a b
    × (a.c_nonce ≡ 0)
    × (a.s_nonce ≡ 0)
new-Paired_example =
    new-Paired toy toy_laws pipe pipe_wire (replicate 32 9) (replicate 32 1) (replicate 32 2) [] []
      (holding (replicate 32 2)) (record { arrived = replicate 32 2; sent = replicate 32 1 })
      (holding (replicate 32 1)) refl refl refl refl refl refl

abbrev long : Bytes
long = replicate 65538 1

abbrev long_on_the_wire : Bytes
long_on_the_wire = (to_be_bytes (length long % 2 ^ 16) ++ long) ++ []

long_is : 2 ^ 16 ≤ length long
long_is = simp length-replicate (omega arith)

recv_frame-send_frame_long_example :
    (s' : End) × (t' : End) × (Plain.send_frame pipe long (record { stream = some (holding []) })
      ≡ (ok tt, record { stream = some s' }))
    × (Plain.recv_frame pipe (record { stream = some (holding long_on_the_wire) })
        ≡ (ok (some (take (length long % 2 ^ 16) long)), record { stream = some t' }))
    × (s'.sent ≡ [] ++ (to_be_bytes (length long % 2 ^ 16) ++ long))
    × (t'.arrived ≡ drop (length long % 2 ^ 16) long ++ [])
recv_frame-send_frame_long_example =
    recv_frame-send_frame_long pipe pipe_wire long [] (holding []) (holding long_on_the_wire)
      long_is refl refl

abbrev read_some : ℕ → Act Bytes (Option Bytes)
read_some n [] = (ok none, [])
read_some n (x ∷ xs) = (ok (some (take n (x ∷ xs))), drop n (x ∷ xs))

-- quinn's streams as lists: a stream that the peer has finished.
abbrev lists : Quinn
lists = record {
  SendStream = Bytes;
  RecvStream = Bytes;
  write_all = λ bytes s. (ok tt, s ++ bytes);
  finish = λ s. (ok tt, s);
  read = read_some;
}

abbrev finished : QuicTunnel lists
finished = record { send = some []; recv = some [] }

recv_frame-ne-none_example : (Quic.recv_frame lists finished).0 ≢ ok none
recv_frame-ne-none_example = recv_frame-ne-none lists finished

abbrev bracketed : Bytes
bracketed = b'[' ∷ b':' ∷ b':' ∷ b'1' ∷ b']' ∷ []

unbracketed_run : unbracketed bracketed ≡ b':' ∷ b':' ∷ b'1' ∷ []
unfolding unbracketed strip_suffix
unbracketed_run = refl

take_most : (n : ℕ) (xs : Bytes) → length (take n xs) ≤ n
take_most zero xs = omega arith
take_most (suc n) [] = omega arith
take_most (suc n) (x ∷ xs) = omega (arith, take_most n xs)

lists_read :
    (s : Bytes) (n : ℕ)
    → 0 < n
    → s ≢ []
    → (s' : Bytes) × (b : ℕ) × (bs : Bytes) × (read_some n s ≡ (ok (some (b ∷ bs)), s'))
      × (s ≡ (b ∷ bs) ++ s')
      × (suc (length bs) ≤ n)
lists_read [] n h k = absurd (k refl)
lists_read (x ∷ xs) zero h k = absurd (omega arith)
lists_read (x ∷ xs) (suc n) h k = (
  drop n xs,
  x,
  take n xs,
  refl,
  ap (λ ys. x ∷ ys) (sym (take-append-drop n xs)),
  omega (arith, take_most n xs),
)

abbrev lists_wire : QuinnWire lists
lists_wire = record {
  arrived = λ s. s;
  sent = λ s. s;
  accepting = λ s. true;
  read_arrived = lists_read;
  write_all_accepting = λ s bytes _. (s ++ bytes, refl, refl, refl);
}

recv_frame-send_frame_quic_example :
    (s' : Bytes) × (r' : Bytes) × (Quic.send_frame lists hello
        (record { send = some []; recv = none })
      ≡ (ok tt, record { send = some s'; recv = none }))
    × (Quic.recv_frame lists
          (record { send = none; recv = some ((to_be_bytes 2 ++ hello) ++ (7 ∷ [])) })
        ≡ (ok (some hello), record { send = none; recv = some r' }))
    × (s' ≡ [] ++ (to_be_bytes 2 ++ hello))
    × (r' ≡ 7 ∷ [])
recv_frame-send_frame_quic_example =
    recv_frame-send_frame_quic lists lists_wire hello (7 ∷ []) []
      ((to_be_bytes 2 ++ hello) ++ (7 ∷ [])) none none (omega arith) refl refl

abbrev relaying : Quic.Both lists End
relaying = record {
  send = [];
  recv = 5 ∷ [];
  external = record { arrived = 1 ∷ 2 ∷ []; sent = [] };
}

runs : Runs lists lists_wire pipe pipe_wire (outward ∷ inward ∷ []) relaying
unfolding Quic.relay_external_to_quic Quic.send_chunk
runs = ((λ e. cc), ((λ e. cc), tt))

race-Carried_example :
    (c : Quic.Both lists End) × (race
        (Quic.relay_external_to_quic lists pipe)
        (Quic.relay_quic_to_external lists pipe)
        (outward ∷ inward ∷ [])
        relaying
      ≡ (ok none, c))
    × Carried lists lists_wire pipe pipe_wire relaying c
race-Carried_example =
    race-Carried lists lists_wire pipe pipe_wire (outward ∷ inward ∷ []) relaying
      (record { send_accepting = refl; external_accepting = refl }) runs
