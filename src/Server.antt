-- ===== src/Server.antt =====
-- lib/src/server.rs: one session behind a tunnel, and the loop that accepts tunnels.
pub mod Accepting
pub mod Relaying
pub mod Request
pub mod Running
pub mod Session
pub mod Status
pub mod Stranger
mod Tests
mod Inline
use vs_vpn.Prelude.{ℕ, [], ◌∷◌, ◌++◌, Bytes, List, Option, none, some}
use vs_vpn.Outcome.{Outcome, ok, err, panic, Error, text, client_closed, ok_or}
use vs_vpn.Act.{Act, pure, fail, crash, lift, ◌>>=◌, ◌>>◌}
use vs_vpn.Std.Format.{show}
use vs_vpn.Protocol.{AddressType, parse_header}
use vs_vpn.Tunnel.{Tunnel}

-- `format!("{target_addr}:{port}")`
abbrev pub target_text : Bytes → ℕ → Bytes
target_text addr port = addr ++ b':' ∷ show port

module _ {Stream : Type 0} (tunnel : Tunnel Stream) where
  open tunnel use {State, send_frame, recv_frame, relay_bidirectional}

  -- The relay with the connection to the target, which is dropped behind it.
  abbrev pub relay_with : Stream → Act State (Option (Unit {0}))
  relay_with conn t = let (r, (t', _)) = relay_bidirectional (t, conn) in (r, t')

  -- The status frame, by what `TcpStream::connect` answered, and the relay.
  unfoldable pub answer : Outcome Stream → Act State (Option (Unit {0}))
  answer (ok conn) = do send_frame (0x00 ∷ []); relay_with conn
  answer (err e) = do send_frame (0x05 ∷ []); fail e
  answer panic = crash

  -- `dial` is `TcpStream::connect`.
  unfoldable pub run_tunnel_server : (dial : Bytes → Outcome Stream) → Act State (Option (Unit {0}))
  run_tunnel_server dial = do
    received ← recv_frame
    plain ← lift (ok_or received (text client_closed))
    (_, target_addr, port) ← lift (parse_header plain)
    answer (dial (target_text target_addr port))

-- What the accepting loop has done: the tunnels that it spawned a task for, and what it returned,
-- or `none` where it still waits.
pub record Served (State : Type 0) : Type 0 where
  pub spawned : List State
  pub returned : Option (Outcome (Unit {0}))

-- `run_with` on what the calls of `acceptor.accept()` answer, one after the other.
module _ {State : Type 0} where
  unfoldable pub run_with : List (Outcome State) → Served State
  run_with [] = record { spawned = []; returned = none }
  run_with (ok tunnel ∷ later) =
      let rest = run_with later in record rest { spawned = tunnel ∷ rest.spawned }
  run_with (err e ∷ later) = record { spawned = []; returned = some (err e) }
  run_with (panic ∷ later) = record { spawned = []; returned = some panic }
