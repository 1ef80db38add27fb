-- ===== src/Cli/Certificates.antt =====
-- What a QUIC server that the command line starts is given, and what it shares with the clients.
use vs_vpn.Prelude.{◌≡◌, ap, sym, ◌∙◌, [], ◌∷◌, Bytes, Bool, true, false, Option, none, some, List}
use vs_vpn.Outcome.{ok, ok_injective, bind-ok, ok_or-ok}
use vs_vpn.Act.{map_err-ok}
use vs_vpn.Std.Address.Socket.{SocketAddr, parse_socket_addr}
use vs_vpn.Tunnel.Quic.{Quinn}
use vs_vpn.Tunnel.Quic.Cert.{Pki}
use vs_vpn.Tunnel.Quic.Cert.Loading.{all_ok, SelfSigned}
use vs_vpn.Std.Asserts.{codes}
use vs_vpn.Tunnel.Quic.Endpoint.{Network, quic_bind}
use vs_vpn.Cli.Environment.{Rustls}
use vs_vpn.Cli.{ClientTls, server, build_quic_client_tls}

-- The address that a server with this option listens at
pub data ListensAt : (quic_listen : Option Bytes) → Bytes → Type 0 where
  at_option : (addr : Bytes) → ListensAt (some addr) addr
  without_option : ListensAt none (codes "0.0.0.0:9091")

module _ (pki : Pki) where
  -- Where a server's certificate and key are from
  pub data From : (cert_path key_path : Option Bytes) → Bytes × Bytes → Type 0 where
    loaded :
        (cert_path key_path cert_pem key_pem cert key : Bytes) (others : List Bytes)
        → pki.read cert_path ≡ ok cert_pem
        → pki.read key_path ≡ ok key_pem
        → pki.certs cert_pem ≡ all_ok (cert ∷ others)
        → pki.private_key key_pem ≡ ok (some key)
        → From (some cert_path) (some key_path) (cert, key)
    no_certificate_path :
        (key_path : Option Bytes) (cert key : Bytes)
        → SelfSigned pki cert key
        → From none key_path (cert, key)
    no_key_path :
        (cert_path cert key : Bytes)
        → SelfSigned pki cert key
        → From (some cert_path) none (cert, key)

-- The endpoint that a QUIC server binds is made from the one certificate it is given, at the address that
-- its text is read as, and offers exactly the protocols that every QUIC client of the command line offers.
pub quic_bind-build_quic_client_tls :
    {Process : Type 0} (rustls : Rustls Process) (quinn : Quinn) (net : Network quinn)
    (addr cert key : Bytes) (endpoint : net.Endpoint) (insecure : Bool) (fingerprint : Option Bytes)
    (tls : ClientTls rustls)
    → quic_bind quinn net addr cert key ≡ ok endpoint
    → build_quic_client_tls rustls insecure fingerprint ≡ ok tls
    → (local : SocketAddr) × (certified : net.Certified) × (config : net.QuicServer)
      × (parse_socket_addr addr ≡ some local)
      × (net.with_single_cert (cert ∷ []) key ≡ ok certified)
      × (net.quic_server_config
            (record { certified = certified; alpn_protocols = tls.alpn_protocols })
          ≡ ok config)
      × (net.server config local ≡ ok endpoint)
unfolding quic_bind build_quic_client_tls
quic_bind-build_quic_client_tls rustls quinn net addr cert key endpoint false (some fp) tls h k =
    absurd (cc)
quic_bind-build_quic_client_tls rustls quinn net addr cert key endpoint false none tls h k =
    absurd (cc)
quic_bind-build_quic_client_tls rustls quinn net addr cert key endpoint true fingerprint tls h k =
    let (certified, chain, h₁) = bind-ok _ _ h in
    let (config, configured, h₂) = bind-ok _ _ h₁ in
    let (local, parsed, h₃) = bind-ok _ _ h₂ in
    (
      local,
      certified,
      config,
      ok_or-ok (parse_socket_addr addr) _ parsed,
      map_err-ok _ (net.with_single_cert (cert ∷ []) key) chain,
      ap
            (λ t.
              net.quic_server_config
                (record { certified = certified; alpn_protocols = t.alpn_protocols }))
            (sym (ok_injective k))
          ∙ map_err-ok _ (net.quic_server_config _) configured,
      map_err-ok _ (net.server config local) h₃,
    )
