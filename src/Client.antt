-- ===== src/Client.antt =====
-- lib/src/client.rs: the SOCKS5 side of a connection, its tunnel, and the loop that accepts clients.
pub mod Completed
pub mod Connecting
pub mod Request
pub mod Running
pub mod Unanswered
pub mod Handling
mod Tests
pub mod Inline
use vs_vpn.Prelude.{
  ℕ, [], ◌∷◌, ◌++◌, Bytes, Bool, true, false, ◌||◌, List, Option, none, some, get_or, ◌==◌,
  if◌then◌else◌,
}
use vs_vpn.Outcome.{
  Outcome, ok, err, panic, Error, text, ok_or, no_authentication_unsupported, unsupported_command,
  unsupported_address_type, server_closed, server_rejected,
}
use vs_vpn.Act.{Act, pure, fail, crash, lift, on, ◌>>=◌, ◌>>◌}
use vs_vpn.Io.{Io}
use vs_vpn.Std.Words.{from_be_bytes}
use vs_vpn.Protocol.{
  AddressType, SocksReply, SocksCommand, succeeded, general_failure, connection_not_allowed,
  network_unreachable, host_unreachable, connection_refused, command_not_supported, connect, bind,
  udp_associate, socks_version, socks_auth_no_acceptable, address_type, address_code, reply_code,
  socks_command, tunnel_header, ipv4,
}
use vs_vpn.Protocol.Read.{read_address}
use vs_vpn.Tunnel.{Tunnel}

-- `methods.contains(&m)`
unfoldable pub contains : ℕ → Bytes → Bool
contains m [] = false
contains m (x ∷ xs) = x == m || contains m xs

-- The ten bytes of a reply, for no bound address.
unfoldable pub reply_bytes : SocksReply → Bytes
reply_bytes rep =
    socks_version ∷ reply_code rep ∷ 0x00 ∷ address_code ipv4 ∷ 0 ∷ 0 ∷ 0 ∷ 0 ∷ 0 ∷ 0 ∷ []

-- The reply for a status byte of the tunnel that is not zero.
unfoldable pub status_reply : ℕ → SocksReply
status_reply status =
    if status == 0x01
    then general_failure
    else if status == 0x02
    then connection_not_allowed
    else if status == 0x03
    then network_unreachable
    else if status == 0x04
    then host_unreachable
    else if status == 0x05
    then connection_refused
    else general_failure

-- The connection of the SOCKS5 client and its tunnel.
pub record Session (Stream State : Type 0) : Type 0 where
  pub conn : Stream
  pub tunnel : State

-- Whether `SocksCommand::from_u8` gave `Some(Connect)`
abbrev pub is_connect : Option SocksCommand → Bool
is_connect none = false
is_connect (some connect) = true
is_connect (some bind) = false
is_connect (some udp_associate) = false

module _ (tokio : Io) where
  open tokio use {Stream, read_exact, write_all}

  unfoldable pub send_socks_reply : SocksReply → Act Stream (Unit {0})
  send_socks_reply rep = write_all (reply_bytes rep)

  -- The greeting: the methods that the client offers, and the answer to them.
  unfoldable pub greet : Act Stream (Unit {0})
  greet = do
    head ← read_exact 2
    methods ← read_exact (get_or head 1 0)
    (if contains 0x00 methods then write_all (socks_version ∷ 0x00 ∷ []) else (do
      write_all (socks_version ∷ socks_auth_no_acceptable ∷ [])
      fail (text no_authentication_unsupported)))

  -- The target of a request that passed the test of its command.
  unfoldable pub read_target : (atyp : ℕ) → Act Stream (Bytes × ℕ)
  read_target atyp = do
    t ← lift (ok_or (address_type atyp) (text (unsupported_address_type atyp)))
    target_addr ← read_address tokio t
    buf ← read_exact 2
    pure (target_addr, from_be_bytes (get_or buf 0 0) (get_or buf 1 0))

  -- The request: the target's address and port.
  unfoldable pub read_request : Act Stream (Bytes × ℕ)
  read_request = do
    head ← read_exact 4
    (if is_connect (socks_command (get_or head 1 0))
        then read_target (get_or head 3 0)
        else (do send_socks_reply command_not_supported; fail (text unsupported_command)))

  module _ (tunnel : Tunnel Stream) where
    open tunnel use {State, send_frame, recv_frame, relay_bidirectional}

    abbrev pub on_conn : {A : Type 0} → Act Stream A → Act (Session Stream State) A
    on_conn = on (λ s. s.conn) (λ c s. record s { conn = c })

    abbrev pub on_tunnel : {A : Type 0} → Act State A → Act (Session Stream State) A
    on_tunnel = on (λ s. s.tunnel) (λ t s. record s { tunnel = t })

    abbrev pub relay : Act (Session Stream State) (Option (Unit {0}))
    relay s =
        let (r, (t, c)) = relay_bidirectional (s.tunnel, s.conn) in
        (r, record { conn = c; tunnel = t })

    -- What the client makes of the server's status frame.
    unfoldable pub on_status : Option Bytes → Act (Session Stream State) (Option (Unit {0}))
    on_status none = fail (text server_closed)
    on_status (some []) = fail (text server_closed)
    on_status (some (status ∷ more)) =
        if status == 0x00 then (do on_conn (send_socks_reply succeeded); relay) else (do
          on_conn (send_socks_reply (status_reply status))
          fail (text (server_rejected status)))

    unfoldable pub run_tunnel_client :
        (header : Bytes) → Act (Session Stream State) (Option (Unit {0}))
    run_tunnel_client header = do
      on_tunnel (send_frame header)
      plain ← on_tunnel recv_frame
      on_status plain

    -- With the tunnel that `connector.connect()` answered.
    abbrev pub through : (header : Bytes) → Outcome State → Act Stream (Option (Unit {0}))
    through header (ok t) c =
        let (r, s) = run_tunnel_client header (record { conn = c; tunnel = t }) in (r, s.conn)
    through header (err e) c = (err e, c)
    through header panic c = (panic, c)

    unfoldable pub handle_socks_client :
        (connected : Outcome State) → Act Stream (Option (Unit {0}))
    handle_socks_client connected = do
      greet
      (target_addr, port) ← read_request
      through (tunnel_header target_addr port) connected

-- What the accepting loop of `run_with` meets: the token is cancelled, or `accept` answers.
pub data Event (Stream : Type 0) : Type 0 where
  cancelled : Event Stream
  accepted : Outcome Stream → Event Stream

pub record Proxied (Stream : Type 0) : Type 0 where
  pub spawned : List Stream
  pub returned : Option (Outcome (Unit {0}))

module _ {Stream : Type 0} where
  -- The loop: a task is spawned for each client, until the token is cancelled or `accept` fails.
  unfoldable pub run_with : List (Event Stream) → Proxied Stream
  run_with [] = record { spawned = []; returned = none }
  run_with (cancelled ∷ later) = record { spawned = []; returned = some (ok tt) }
  run_with (accepted (ok conn) ∷ later) =
      let rest = run_with later in record rest { spawned = conn ∷ rest.spawned }
  run_with (accepted (err e) ∷ later) = record { spawned = []; returned = some (err e) }
  run_with (accepted panic ∷ later) = record { spawned = []; returned = some panic }
