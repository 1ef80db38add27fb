-- ===== src/Tunnel/Quic/Endpoint.antt =====
-- feature/tunnel/quic/src/lib.rs: how a QUIC client connects, and how a QUIC server binds and accepts.
-- Name resolution, rustls and quinn are parameters.
pub mod Remote
mod Tests
use vs_vpn.Prelude.{ℕ, [], ◌∷◌, Bytes, List, Option, none, some}
use vs_vpn.Outcome.{
  Outcome, Error, Message, ok, err, ◌>>=◌, ok_or, message, io, other, unresolved, endpoint_closed,
  invalid_quic_tls, endpoint_creation, connect_with, handshake, invalid_socket_address,
}
use vs_vpn.Act.{map_err_outcome}
use vs_vpn.Std.Address.Socket.{SocketAddr, parse_socket_addr}
use vs_vpn.Tunnel.Quic.{Quinn, QuicTunnel, quic_err, new}
use vs_vpn.Tunnel.Quic.HostPort.{split_host_port}

-- `rustls::ServerConfig`: what its builder made, and the field that the source sets.
pub record ServerTls (Certified : Type 0) : Type 0 where
  pub certified : Certified
  pub alpn_protocols : List Bytes

-- What the calls of the resolver, of rustls and of quinn answer.
pub record Network (quinn : Quinn) : Type 1 where
  pub ClientTls : Type 0
  pub QuicClient : Type 0
  pub Certified : Type 0
  pub QuicServer : Type 0
  pub Endpoint : Type 0
  pub Connecting : Type 0
  pub Incoming : Type 0
  pub Connection : Type 0
  pub lookup_host : (host : Bytes) (port : ℕ) → Outcome (List SocketAddr)
  pub quic_client_config : ClientTls → Outcome QuicClient
  pub client : SocketAddr → Outcome Endpoint
  pub connect : Endpoint → QuicClient → SocketAddr → (server_name : Bytes) → Outcome Connecting
  pub connected : Connecting → Outcome Connection
  pub open_bi : Connection → Outcome (quinn.SendStream × quinn.RecvStream)
  pub with_single_cert : (chain : List Bytes) (key : Bytes) → Outcome Certified
  pub quic_server_config : ServerTls Certified → Outcome QuicServer
  pub server : QuicServer → SocketAddr → Outcome Endpoint
  pub accepted : Incoming → Outcome Connection
  pub remote_address : Connection → SocketAddr
  pub accept_bi : Connection → Outcome (quinn.SendStream × quinn.RecvStream)
  pub local_addr : Endpoint → Outcome SocketAddr

-- `io_err(format!("…: {e}"))`
abbrev pub labelled : (Message → Message) → Error → Error
labelled f e = io other (f (message e))

-- `tls_config.alpn_protocols`
abbrev pub server_alpn : Bytes
server_alpn = b'v' ∷ b's' ∷ b'-' ∷ b'v' ∷ b'p' ∷ b'n' ∷ []

-- "0.0.0.0:0"
abbrev pub any_address : Bytes
any_address = b'0' ∷ b'.' ∷ b'0' ∷ b'.' ∷ b'0' ∷ b'.' ∷ b'0' ∷ b':' ∷ b'0' ∷ []

-- `addr.parse().map_err(io_err)?`
abbrev pub parsed_address : Bytes → Outcome SocketAddr
parsed_address addr = ok_or (parse_socket_addr addr) (io other invalid_socket_address)

-- `.next()`
abbrev pub first_of : {A : Type 0} → List A → Option A
first_of [] = none
first_of (a ∷ more) = some a

module _ (quinn : Quinn) (net : Network quinn) where
  open net use {ClientTls, Certified, Endpoint, Incoming}

  pub record QuicConnector : Type 0 where
    pub server_addr : Bytes
    pub tls_config : ClientTls

  -- `TunnelConnector::connect` for `QuicConnector`
  unfoldable pub quic_connect : QuicConnector → Outcome (QuicTunnel quinn)
  quic_connect c = do
    (host, port) ← split_host_port c.server_addr
    found ← net.lookup_host host port
    addr ← ok_or (first_of found) (io other (unresolved c.server_addr))
    quic_tls ← map_err_outcome (labelled invalid_quic_tls) (net.quic_client_config c.tls_config)
    local ← parsed_address any_address
    endpoint ← map_err_outcome (labelled endpoint_creation) (net.client local)
    connecting ← map_err_outcome (labelled connect_with) (net.connect endpoint quic_tls addr host)
    conn ← map_err_outcome (labelled handshake) (net.connected connecting)
    (send, recv) ← map_err_outcome quic_err (net.open_bi conn)
    ok (new quinn send recv)

  abbrev pub server_tls : Certified → ServerTls Certified
  server_tls certified = record { certified = certified; alpn_protocols = server_alpn ∷ [] }

  -- `QuicAcceptor::bind`
  unfoldable pub quic_bind : (addr cert key : Bytes) → Outcome Endpoint
  quic_bind addr cert key = do
    certified ← map_err_outcome quic_err (net.with_single_cert (cert ∷ []) key)
    quic_tls ← map_err_outcome quic_err (net.quic_server_config (server_tls certified))
    local ← parsed_address addr
    map_err_outcome quic_err (net.server quic_tls local)

  -- `TunnelAcceptor::accept` for `QuicAcceptor`, on what `endpoint.accept()` answers
  unfoldable pub quic_accept : Option Incoming → Outcome (QuicTunnel quinn × SocketAddr)
  quic_accept arrived = do
    incoming ← ok_or arrived (io other endpoint_closed)
    conn ← map_err_outcome quic_err (net.accepted incoming)
    (send, recv) ← map_err_outcome quic_err (net.accept_bi conn)
    ok (new quinn send recv, net.remote_address conn)

  -- `QuicAcceptor::local_addr`
  abbrev pub quic_local_addr : Endpoint → Outcome SocketAddr
  quic_local_addr endpoint = map_err_outcome quic_err (net.local_addr endpoint)
