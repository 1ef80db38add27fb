-- ===== src/Client/Running.antt =====
-- `run`, `run_connector` and the start of `run_with` in lib/src/client.rs: binding, telling `ready`, the
-- accepting loop, and what each task that it spawns does.
use vs_vpn.Prelude.{◌≡◌, refl, some, none, Bytes, Bool, List, Option}
use vs_vpn.Outcome.{Outcome, ok, err, panic}
use vs_vpn.Act.{Act}
use vs_vpn.Io.{Io}
use vs_vpn.Io.Listening.{Listeners, Run, announce, stopped}
use vs_vpn.Crypto.Primitives.{Suite}
use vs_vpn.Tunnel.{Tunnel, TunnelConnector, Schedule}
use vs_vpn.Tunnel.Connectors.{plain_connector, encrypted_connector}
use vs_vpn.Client.{Event, Proxied, handle_socks_client, run_with}
use vs_vpn.Client.Connecting.{serve_client}

-- The loop, once the listener is bound
module _ (tcp : Listeners) {Stream : Type 0} where
  abbrev pub run_bound :
      Outcome tcp.Listener → (ready : Bool) → List (Event Stream) → Run (Proxied Stream)
  run_bound (ok listener) ready events = announce ready (tcp.local_addr listener) (run_with events)
  run_bound (err e) ready events = stopped (err e)
  run_bound panic ready events = stopped panic

-- The proxy and the task of a client
pub record Proxy (Stream : Type 0) : Type 0 where
  pub listening : Run (Proxied Stream)
  pub task : Act Stream (Option (Unit {0}))

module _ (tokio : Io) (tcp : Listeners) where
  open tokio use {Stream}

  -- With any connector; `run_with` is generic in it.
  unfoldable pub run_connector :
      {tunnel : Tunnel Stream} (connector : TunnelConnector tunnel)
      → (listen : Bytes) → connector.Connector
      → (ready : Bool) → List (Event Stream)
      → Proxy Stream
  run_connector {tunnel} connector listen c ready events = record {
    listening = run_bound tcp (tcp.bind listen) ready events;
    task = handle_socks_client tokio tunnel (connector.connect c);
  }

  -- The connector that the secret calls for
  unfoldable pub run :
      (crypto : Suite) (dial : Bytes → Outcome Stream) (random : Bytes) (schedule : Schedule)
      → (listen server_addr : Bytes) (secret : Option Bytes) (ready : Bool) → List (Event Stream)
      → Proxy Stream
  run crypto dial random schedule listen server_addr (some psk) ready events =
      run_connector (encrypted_connector tokio schedule dial crypto random) listen
        (record { server_addr = server_addr; psk = psk }) ready events
  run crypto dial random schedule listen server_addr none ready events =
      run_connector (plain_connector tokio schedule dial) listen
        (record { server_addr = server_addr }) ready events

  -- The task of each client is the one that `serve_client` names.
  pub run-serve_client :
      (crypto : Suite) (dial : Bytes → Outcome Stream) (random : Bytes) (schedule : Schedule)
      (listen server_addr : Bytes) (secret : Option Bytes) (ready : Bool)
      (events : List (Event Stream))
      → (run crypto dial random schedule listen server_addr secret ready events).task
        ≡ serve_client crypto tokio dial server_addr random schedule secret
  unfolding run run_connector serve_client
  run-serve_client crypto dial random schedule listen server_addr (some psk) ready events = refl
  run-serve_client crypto dial random schedule listen server_addr none ready events = refl
