-- ===== src/Server/Running.antt =====
-- `run` and `run_acceptor` of lib/src/server.rs: binding, telling `ready`, and the accepting loop with the
-- acceptor that the secret calls for.
pub mod Secrecy
mod Tests
use vs_vpn.Prelude.{[], ◌∷◌, Bytes, Bool, List, Option, none, some}
use vs_vpn.Outcome.{Outcome, ok, err, panic, ◌>>=◌}
use vs_vpn.Io.{Io}
use vs_vpn.Io.Listening.{Listeners, Run, announce, stopped}
use vs_vpn.Crypto.Primitives.{Suite}
use vs_vpn.Tunnel.{Tunnel, TunnelAcceptor, Schedule}
use vs_vpn.Tunnel.Plain.{PlainTunnel}
use vs_vpn.Tunnel.Encrypted.{EncryptedTunnel}
use vs_vpn.Tunnel.Acceptors.{plain_bind, encrypted_bind, plain_acceptor, encrypted_acceptor}
use vs_vpn.Std.Address.Socket.{SocketAddr}
use vs_vpn.Server.{Served, run_with}

-- What `acceptor.accept()` answers to each arrival; the peer's address is only logged.
module _ {Stream : Type 0} {tunnel : Tunnel Stream} (acceptor : TunnelAcceptor tunnel) where
  open acceptor use {Acceptor, Arrival, accept, local_addr}

  unfoldable pub accepts : Acceptor → List Arrival → List (Outcome tunnel.State)
  accepts a [] = []
  accepts a (arrived ∷ later) = (accept a arrived >>= λ (t, addr). ok t) ∷ accepts a later

  unfoldable pub run_acceptor : Acceptor → List Arrival → Served tunnel.State
  run_acceptor a arrivals = run_with (accepts a arrivals)

  -- What `run` does once it has chosen the acceptor
  abbrev pub run_bound :
      Outcome Acceptor → (ready : Bool) → List Arrival → Run (Served tunnel.State)
  run_bound (ok a) ready arrivals = announce ready (local_addr a) (run_acceptor a arrivals)
  run_bound (err e) ready arrivals = stopped (err e)
  run_bound panic ready arrivals = stopped panic

-- A server runs with one transport or the other.
pub data ServerRun (Stream : Type 0) : Type 0 where
  in_clear : Run (Served (PlainTunnel Stream)) → ServerRun Stream
  under_key : Run (Served (EncryptedTunnel Stream)) → ServerRun Stream

module _ (crypto : Suite) (tokio : Io) (tcp : Listeners) (schedule : Schedule) where
  open tokio use {Stream}

  -- The plain acceptor takes no random bytes.
  abbrev connections :
      List (Bytes × Outcome (Stream × SocketAddr)) → List (Outcome (Stream × SocketAddr))
  connections [] = []
  connections ((random, arrived) ∷ later) = arrived ∷ connections later

  -- With each connection that arrives come the random bytes that a handshake on it would use.
  unfoldable pub run :
      (listen : Bytes) (secret : Option Bytes) (ready : Bool)
      → List (Bytes × Outcome (Stream × SocketAddr))
      → ServerRun Stream
  run listen (some psk) ready arrivals = under_key (
      run_bound (encrypted_acceptor tcp tokio schedule crypto) (encrypted_bind tcp listen psk) ready
        arrivals)
  run listen none ready arrivals = in_clear (
      run_bound (plain_acceptor tcp tokio schedule) (plain_bind tcp listen) ready
        (connections arrivals))
