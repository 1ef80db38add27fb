-- ===== src/Server/Running/Tests.antt =====
-- A server with a secret to which two connections come, and one that closes at once.
use vs_vpn.Prelude.{ℕ, ◌≡◌, refl, [], ◌∷◌, Bytes, List, true, some, replicate, length}
use vs_vpn.Outcome.{Outcome, ok, err, panic}
use vs_vpn.Io.Listening.{Listeners, announce}
use vs_vpn.Io.Pipe.{End, pipe, pull}
use vs_vpn.Std.Address.Socket.{SocketAddr, v4}
use vs_vpn.Crypto.{secure_handshake, derive_session_keys}
use vs_vpn.Crypto.Toy.{toy}
use vs_vpn.Tunnel.{Schedule, outward}
use vs_vpn.Tunnel.Encrypted
use vs_vpn.Tunnel.Encrypted.{EncryptedTunnel}
use vs_vpn.Server.{Served, run_with}
use vs_vpn.Server.Running.{run, accepts, run_acceptor, ServerRun, in_clear, under_key}
use vs_vpn.Server.Running.Secrecy.{IsSecret, run-IsSecret}

abbrev tcp : Listeners
tcp = record {
  Listener = Bytes;
  bind = λ addr. ok addr;
  local_addr = λ l. ok (v4 (0 ∷ 0 ∷ 0 ∷ 0 ∷ []) 1080);
}

abbrev peer : SocketAddr
peer = v4 (127 ∷ 0 ∷ 0 ∷ 1 ∷ []) 5

abbrev arrival : ℕ → Bytes × Outcome (End × SocketAddr)
arrival n = (replicate 32 n, ok (record { arrived = replicate 32 1; sent = [] }, peer))

abbrev closed : Bytes × Outcome (End × SocketAddr)
closed = (replicate 32 4, ok (record { arrived = []; sent = [] }, peer))

abbrev arrivals : List (Bytes × Outcome (End × SocketAddr))
arrivals = arrival 2 ∷ arrival 3 ∷ closed ∷ arrival 5 ∷ []

abbrev schedule : Schedule
schedule = outward ∷ []

abbrev sessions : ServerRun End → ℕ
sessions (in_clear r) = 0
sessions (under_key r) = spawned r.loop
  where
    spawned : Outcome (Served (EncryptedTunnel End)) → ℕ
    spawned (ok served) = length served.spawned
    spawned (err e) = 0
    spawned panic = 0

two_sessions :
    sessions (run toy pipe tcp schedule (1 ∷ []) (some (replicate 32 9)) true arrivals) ≡ 2
unfolding run announce run_acceptor accepts run_with Encrypted.accept Encrypted.new secure_handshake
    derive_session_keys pull
two_sessions = refl

run-IsSecret_example :
    IsSecret toy pipe tcp schedule
      (replicate 32 9)
      arrivals
      (run toy pipe tcp schedule (1 ∷ []) (some (replicate 32 9)) true arrivals)
run-IsSecret_example = run-IsSecret toy pipe tcp schedule (1 ∷ []) (replicate 32 9) true arrivals
