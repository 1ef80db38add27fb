-- ===== src/Tunnel.antt =====
-- feature/tunnel/api/src/lib.rs: what every tunnel offers, and the race of the two directions that
-- each transport's `relay_bidirectional` runs.
pub mod Acceptors
pub mod Connectors
pub mod Plain
pub mod Encrypted
pub mod Quic
mod Tests
use vs_vpn.Prelude.{ℕ, [], ◌∷◌, Bytes, Bool, true, false, List, Option, none, some}
use vs_vpn.Outcome.{Outcome, ok, err, panic}
use vs_vpn.Act.{Act}
use vs_vpn.Std.Address.Socket.{SocketAddr}

-- The trait `Tunnel` over a type of external streams. Where a relay is still running when its
-- schedule ends, it answers `none`.
pub record Tunnel (Stream : Type 0) : Type 1 where
  pub State : Type 0
  pub send_frame : Bytes → Act State (Unit {0})
  pub recv_frame : Act State (Option Bytes)
  pub relay_bidirectional : Act (State × Stream) (Option (Unit {0}))

-- The trait `TunnelConnector`: one connection attempt.
pub record TunnelConnector {Stream : Type 0} (tunnel : Tunnel Stream) : Type 1 where
  pub Connector : Type 0
  pub connect : Connector → Outcome tunnel.State

-- The trait `TunnelAcceptor`: `accept` on what has arrived, a tunnel and the peer's address.
pub record TunnelAcceptor {Stream : Type 0} (tunnel : Tunnel Stream) : Type 1 where
  pub Acceptor : Type 0
  pub Arrival : Type 0
  pub accept : Acceptor → Arrival → Outcome (tunnel.State × SocketAddr)
  pub local_addr : Acceptor → Outcome SocketAddr

-- From the external stream into the tunnel, or back.
pub data Direction : Type 0 where
  outward inward : Direction

-- Which direction makes its next round.
abbrev pub Schedule : Type 0
Schedule = List Direction

-- What a round comes to: the loop goes on, or the race is over.
abbrev pub settle :
    {S : Type 0}
    → Outcome Bool
    → S
    → Outcome (Option (Unit {0})) × S
    → Outcome (Option (Unit {0})) × S
settle (ok true) s rest = (ok (some tt), s)
settle (ok false) s rest = rest
settle (err e) s rest = (ok (some tt), s)
settle panic s rest = (panic, s)

module _ {S : Type 0} (out back : Act S Bool) where
  abbrev pub turn : Direction → Act S Bool
  turn outward = out
  turn inward = back

  -- `tokio::select!` on two loops: the first that finishes ends both; an error is logged, and the
  -- relay still answers `Ok(())`.
  unfoldable pub race : Schedule → Act S (Option (Unit {0}))
  race [] s = (ok none, s)
  race (d ∷ schedule) s = let (r, s') = turn d s in settle r s' (race schedule s')
