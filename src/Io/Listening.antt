-- ===== src/Io/Listening.antt =====
-- A listener of tokio, and what is common to a client and a server that start to listen.
use vs_vpn.Prelude.{Bytes, Bool, true, false, Option, none, some}
use vs_vpn.Outcome.{Outcome, ok, err, panic}
use vs_vpn.Std.Address.Socket.{SocketAddr}

-- What the calls of `tokio::net::TcpListener` answer
pub record Listeners : Type 1 where
  pub Listener : Type 0
  pub bind : Bytes → Outcome Listener
  pub local_addr : Listener → Outcome SocketAddr

-- What the channel `ready` was told, and what the loop behind it did, if it was reached.
pub record Run (Loop : Type 0) : Type 0 where
  pub told : Option SocketAddr
  pub loop : Outcome Loop

abbrev pub stopped : {Loop : Type 0} → Outcome Loop → Run Loop
stopped result = record { told = none; loop = result }

-- `if let Some(tx) = ready { let _ = tx.send(….local_addr()?); }`, and the loop
unfoldable pub announce : {Loop : Type 0} → (ready : Bool) → Outcome SocketAddr → Loop → Run Loop
announce false addr loop = record { told = none; loop = ok loop }
announce true (ok addr) loop = record { told = some addr; loop = ok loop }
announce true (err e) loop = stopped (err e)
announce true panic loop = stopped panic
