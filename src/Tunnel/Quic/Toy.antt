-- ===== src/Tunnel/Quic/Toy.antt =====
-- A network in which every call of a QUIC endpoint succeeds, but for an IPv6 peer of an endpoint that is
-- bound to an IPv4 address.
use vs_vpn.Prelude.{ℕ, [], ◌∷◌, ◌++◌, Bytes, List, none, replicate, ◌==◌, if◌then◌else◌}
use vs_vpn.Outcome.{Outcome, Message, ok, err, io, other}
use vs_vpn.Std.Address.Socket.{SocketAddr, v4, v6}
use vs_vpn.Tunnel.Quic.{Quinn}
use vs_vpn.Tunnel.Quic.Endpoint.{Network, ServerTls}

abbrev pub streams : Quinn
streams = record {
  SendStream = Bytes;
  RecvStream = Bytes;
  write_all = λ bytes s. (ok tt, s ++ bytes);
  finish = λ s. (ok tt, s);
  read = λ n s. (ok none, s);
}

abbrev reached : SocketAddr → SocketAddr → Outcome SocketAddr
reached (v4 o p) (v4 o' p') = ok (v4 o' p')
reached (v4 o p) (v6 o' p' scope) = err (io other (Message.library 0))
reached (v6 o p scope) peer = ok peer

-- The name 6 has an IPv6 address first, and an IPv4 address behind it; every other name has an IPv4 address.
abbrev found : Bytes → ℕ → List SocketAddr
found [] port = []
found (n ∷ name) port =
    if n == 6
    then v6 (replicate 16 6) port 0 ∷ v4 (6 ∷ 6 ∷ 6 ∷ 6 ∷ []) port ∷ []
    else v4 (n ∷ n ∷ n ∷ n ∷ []) port ∷ []

abbrev pub network : Network streams
network = record {
  ClientTls = Bytes;
  QuicClient = Bytes;
  Certified = Bytes;
  QuicServer = ServerTls Bytes;
  Endpoint = SocketAddr;
  Connecting = SocketAddr;
  Incoming = SocketAddr;
  Connection = SocketAddr;
  lookup_host = λ host port. ok (found host port);
  quic_client_config = λ tls. ok tls;
  client = λ addr. ok addr;
  connect = λ endpoint tls peer name. reached endpoint peer;
  connected = λ peer. ok peer;
  open_bi = λ peer. ok ([], []);
  with_single_cert = λ chain key. ok key;
  quic_server_config = λ tls. ok tls;
  server = λ tls addr. ok addr;
  accepted = λ peer. ok peer;
  remote_address = λ peer. peer;
  accept_bi = λ peer. ok ([], []);
  local_addr = λ endpoint. ok endpoint;
}
