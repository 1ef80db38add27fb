-- ===== src/Tunnel/Quic/Endpoint/Tests.antt =====
-- The theorems on connecting at concrete addresses.
use vs_vpn.Prelude.{ℕ, ◌≡◌, ◌≢◌, refl, [], ◌∷◌, ◌++◌, arith, Bytes, List, replicate}
use vs_vpn.Outcome.{ok, IsOk}
use vs_vpn.Std.Format.{show}
use vs_vpn.Std.Text.{strip_suffix}
use vs_vpn.Std.Address.Socket.{SocketAddr, v4, v6}
use vs_vpn.Tunnel.Quic.{new}
use vs_vpn.Tunnel.Quic.HostPort.{unbracketed}
use vs_vpn.Tunnel.Quic.Endpoint.{QuicConnector, quic_connect}
use vs_vpn.Tunnel.Quic.Endpoint.Remote.{quic_connect-v6}
use vs_vpn.Tunnel.Quic.Toy.{streams, network}

abbrev to : Bytes → QuicConnector streams network
to addr = record { server_addr = addr; tls_config = [] }

-- The host 4 in brackets, and the port 443
abbrev addr_4 : Bytes
addr_4 = b'[' ∷ ((4 ∷ []) ++ b']' ∷ b':' ∷ show 443)

abbrev host_6 : Bytes
host_6 = b'[' ∷ 6 ∷ b']' ∷ []

abbrev peers : List SocketAddr
peers = v4 (6 ∷ 6 ∷ 6 ∷ 6 ∷ []) 443 ∷ []

looked_up : network.lookup_host (unbracketed host_6) 443 ≡ ok (v6 (replicate 16 6) 443 0 ∷ peers)
unfolding unbracketed strip_suffix
looked_up = refl

refuses :
    (octets peer : Bytes) (port p scope : ℕ) (e : SocketAddr) (q name : Bytes)
    → network.client (v4 octets port) ≡ ok e
    → ¬ IsOk (network.connect e q (v6 peer p scope) name)
refuses octets peer port p scope (v4 o r) q name h k = k
refuses octets peer port p scope (v6 o r s) q name h k = cc

quic_connect-v6_example :
    quic_connect streams network (to (host_6 ++ b':' ∷ show 443)) ≢ ok (new streams [] [])
quic_connect-v6_example =
    quic_connect-v6 streams network refuses (to (host_6 ++ b':' ∷ show 443)) host_6 443 refl
      (omega arith) (replicate 16 6) 443 0 peers looked_up (new streams [] [])
