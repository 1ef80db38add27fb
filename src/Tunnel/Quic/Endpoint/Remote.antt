-- ===== src/Tunnel/Quic/Endpoint/Remote.antt =====
-- Which address a QUIC client connects to.
use vs_vpn.Prelude.{ℕ, ◌<◌, ◌^◌, ◌≡◌, ◌≢◌, sym, ◌∙◌, ap, head_eq, [], ◌∷◌, ◌++◌, Bytes, List, some}
use vs_vpn.Outcome.{ok, ok_injective, bind-ok, ok_or-ok, IsOk}
use vs_vpn.Act.{map_err-ok}
use vs_vpn.Std.Format.{show}
use vs_vpn.Std.Address.{read_ipv4, read_octet}
use vs_vpn.Std.Address.Socket.{SocketAddr, v4, v6, parse_socket_addr}
use vs_vpn.Tunnel.Quic.{Quinn, QuicTunnel, new}
use vs_vpn.Tunnel.Quic.HostPort.{split_host_port, unbracketed, split_host_port-show}
use vs_vpn.Tunnel.Quic.Endpoint.{
  Network, QuicConnector, quic_connect, first_of, any_address, parsed_address,
}

-- The unspecified IPv4 address, from which every client connects
abbrev pub unspecified : SocketAddr
unspecified = v4 (0 ∷ 0 ∷ 0 ∷ 0 ∷ []) 0

unspecified_lem : (local : SocketAddr) → parsed_address any_address ≡ ok local → local ≡ unspecified
unfolding parse_socket_addr read_ipv4 read_octet
unspecified_lem local h = cc

pub first_of-some :
    {A : Type 0} (found : List A) {a : A}
    → first_of found ≡ some a
    → (others : List A) × (found ≡ a ∷ others)
first_of-some [] h = absurd (cc)
first_of-some (a ∷ others) h = (others, cc)

module _ (quinn : Quinn) (net : Network quinn) where
  -- A connection of `c` to a host and a port, with what each call answered.
  pub record Connected (c : QuicConnector quinn net) (host : Bytes) (port : ℕ)
      (t : QuicTunnel quinn) : Type 0 where
    pub addr : SocketAddr
    pub others : List SocketAddr
    pub tls : net.QuicClient
    pub endpoint : net.Endpoint
    pub connecting : net.Connecting
    pub conn : net.Connection
    pub streams : quinn.SendStream × quinn.RecvStream
    pub resolved : net.lookup_host host port ≡ ok (addr ∷ others)
    pub configured : net.quic_client_config c.tls_config ≡ ok tls
    pub bound : net.client unspecified ≡ ok endpoint
    pub asked : net.connect endpoint tls addr host ≡ ok connecting
    pub shaken : net.connected connecting ≡ ok conn
    pub opened : net.open_bi conn ≡ ok streams
    pub tunnel : t ≡ new quinn streams.0 streams.1

  -- The calls of a `connect` that gives a tunnel, with the host and the port that it has read.
  quic_connect-split :
      (c : QuicConnector quinn net) (t : QuicTunnel quinn)
      → quic_connect quinn net c ≡ ok t
      → (host : Bytes) × (port : ℕ) × (split_host_port c.server_addr ≡ ok (host, port))
        × Connected c host port t
  unfolding quic_connect
  quic_connect-split c t h =
      let ((host, port), split, h₁) = bind-ok (split_host_port c.server_addr) _ h in
      let (found, looked, h₂) = bind-ok (net.lookup_host host port) _ h₁ in
      let (addr, first, h₃) = bind-ok _ _ h₂ in
      let (others, found_is) = first_of-some found (ok_or-ok (first_of found) _ first) in
      let (tls, configured, h₄) = bind-ok _ _ h₃ in
      let (local, parsed, h₅) = bind-ok (parsed_address any_address) _ h₄ in
      let (endpoint, bound, h₆) = bind-ok _ _ h₅ in
      let (connecting, asked, h₇) = bind-ok _ _ h₆ in
      let (conn, shaken, h₈) = bind-ok _ _ h₇ in
      let (streams, opened, h₉) = bind-ok _ _ h₈ in
      (
        host,
        port,
        split,
        record {
          addr = addr;
          others = others;
          tls = tls;
          endpoint = endpoint;
          connecting = connecting;
          conn = conn;
          streams = streams;
          resolved = looked ∙ ap ok found_is;
          configured = map_err-ok _ (net.quic_client_config c.tls_config) configured;
          bound =
              ap net.client (sym (unspecified_lem local parsed))
              ∙ map_err-ok _ (net.client local) bound;
          asked = map_err-ok _ (net.connect endpoint tls addr host) asked;
          shaken = map_err-ok _ (net.connected connecting) shaken;
          opened = map_err-ok _ (net.open_bi conn) opened;
          tunnel = sym (ok_injective h₉);
        },
      )

  -- Where an endpoint that is bound to an IPv4 address refuses an IPv6 peer, as quinn documents, a connector
  -- whose host the resolver finds an IPv6 address for first never connects: also where the host is an IPv6
  -- address in brackets, and where an IPv4 address comes behind it.
  pub quic_connect-v6 :
      ((octets peer : Bytes) (port p scope : ℕ) (e : net.Endpoint) (q : net.QuicClient)
          (name : Bytes)
        → net.client (v4 octets port) ≡ ok e
        → ¬ IsOk (net.connect e q (v6 peer p scope) name))
      → (c : QuicConnector quinn net) (host : Bytes) (port : ℕ)
      → c.server_addr ≡ host ++ b':' ∷ show port
      → port < 2 ^ 16
      → (octets : Bytes) (p scope : ℕ) (others : List SocketAddr)
      → net.lookup_host (unbracketed host) port ≡ ok (v6 octets p scope ∷ others)
      → (t : QuicTunnel quinn) → quic_connect quinn net c ≢ ok t
  quic_connect-v6 refuses c host port named bound octets p scope others found t h =
      let (host', port', read, r) = quic_connect-split c t h in
      let split : split_host_port c.server_addr ≡ ok (unbracketed host, port) =
        rw named (split_host_port-show host port bound) in
      let same : (host', port') ≡ (unbracketed host, port) = ok_injective (sym read ∙ split) in
      let answers : r.addr ∷ r.others ≡ v6 octets p scope ∷ others =
        ok_injective (sym r.resolved ∙ ap (λ a. net.lookup_host a.0 a.1) same ∙ found) in
      let peer : r.addr ≡ v6 octets p scope = head_eq answers in
      refuses (0 ∷ 0 ∷ 0 ∷ 0 ∷ []) octets 0 p scope r.endpoint r.tls host' r.bound
        (rw (sym peer, r.asked) tt)
