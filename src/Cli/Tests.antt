-- ===== src/Cli/Tests.antt =====
-- The theorems on the command line at concrete inputs, with a decoder that takes each byte as it is.
use vs_vpn.Prelude.{
  ℕ, ◌≡◌, ◌≢◌, ◌⊎◌, refl, [], ◌∷◌, Bytes, Bool, true, false, Option, none, some, length, replicate,
  if◌then◌else◌,
}
use vs_vpn.Outcome.{Outcome, Error, ok, err, panic, text, no_certificate}
use vs_vpn.Crypto.{key_len}
use vs_vpn.Std.Address.{read_ipv4, read_octet}
use vs_vpn.Std.Address.Socket.{v4, parse_socket_addr}
use vs_vpn.Tunnel.Quic.Endpoint.{any_address, quic_bind}
use vs_vpn.Tunnel.Quic.Toy.{streams, network}
use vs_vpn.Tunnel.Quic.Cert.{Pki, collect, load_cert_and_key}
use vs_vpn.Cli.Environment.{Rustls, Tracing, init_tracing, init_rustls, skip_cert_verification}
use vs_vpn.Cli.{
  ClientCommand, ClientTls, Started, Command, ServerCommand, client, server, client_run,
  client_run_connector, tcp, quic, alpn, parse_secret, parse_key, start, build_quic_client_tls,
}
use vs_vpn.Cli.Main.{main}
use vs_vpn.Cli.Checks.{parse_secret_lem, TakesAny, main-quic, main-tcp}

abbrev decode : Bytes → Option Bytes
decode s = some s

abbrev secret : Bytes
secret = replicate 32 7

abbrev over_quic : ClientCommand
over_quic = record {
  listen = 1 ∷ [];
  server = 2 ∷ [];
  secret = some secret;
  transport = quic;
  quic_insecure = true;
  quic_fingerprint = none;
}

abbrev over_tcp : ClientCommand
over_tcp = record over_quic { transport = tcp }

-- Two files, each of which holds what its path is.
abbrev pki : Pki
pki = record {
  DnsName = Bytes;
  KeyPair = Bytes;
  dns = λ name. ok name;
  generate = ok (7 ∷ []);
  self_signed = λ params key. ok key;
  private_key_der = λ key. key;
  sha256 = λ bytes. bytes;
  hex_encode = λ bytes. bytes;
  read = λ path. ok path;
  certs = λ pem. ok pem ∷ [];
  private_key = λ pem. ok (some pem);
}

-- A process in which nothing is set up yet, and one in which both parts are.
abbrev fresh : Bool × Bool
fresh = (false, false)

abbrev ready : Bool × Bool
ready = (true, true)

-- The filter is a text, and the variable of the environment is not set.
abbrev tracing : Tracing (Bool × Bool)
tracing = record {
  Filter = Bytes;
  try_from_default_env = err (text no_certificate);
  new = λ directives. directives;
  init = λ filter p. (ok tt, (true, p.1));
}

abbrev rustls : Rustls (Bool × Bool)
rustls = record {
  Provider = Unit {0};
  Algorithms = Unit {0};
  Signed = Bytes;
  Scheme = ℕ;
  default_provider = tt;
  install_default = λ provider p. (if p.1 then err (text no_certificate) else ok tt, (p.0, true));
  signature_verification_algorithms = λ provider. tt;
  verify_tls12_signature = λ message cert dss algorithms. ok tt;
  verify_tls13_signature = λ message cert dss algorithms. ok tt;
  supported_schemes = λ algorithms. 1 ∷ [];
}

abbrev run : Command → Bool × Bool → Outcome (Started rustls) × (Bool × Bool)
run = main rustls decode tracing pki []

abbrev tls : ClientTls rustls
tls = record { verifier = skip_cert_verification rustls; alpn_protocols = alpn ∷ [] }

-- A provider that is installed already makes the process panic.
second_install : run (client over_quic) ready ≡ (panic, ready)
unfolding main init_tracing init_rustls
second_install = refl

quic_starts :
    run (client over_quic) fresh ≡ (ok (client_run_connector (1 ∷ []) (2 ∷ []) tls), ready)
unfolding main init_tracing init_rustls start build_quic_client_tls
quic_starts = refl

tcp_starts : run (client over_tcp) fresh ≡ (ok (client_run (1 ∷ []) (2 ∷ []) (some secret)), ready)
unfolding main init_tracing init_rustls start parse_key parse_secret
tcp_starts = refl

parse_secret_lem_example :
    ((key : Bytes) × (decode secret ≡ some key)
      × (length key ≡ key_len)
      × (parse_secret decode secret ≡ ok key))
    ⊎ (((bytes : Bytes) → decode secret ≡ some bytes → length bytes ≢ key_len)
        × ((e : Error) × (parse_secret decode secret ≡ err e)))
parse_secret_lem_example = parse_secret_lem decode secret

main-quic_example :
    (over_quic.quic_insecure ≡ true)
    × ((t : ClientTls rustls) × (client_run_connector (1 ∷ []) (2 ∷ []) tls
          ≡ client_run_connector over_quic.listen over_quic.server t)
        × TakesAny rustls t)
main-quic_example =
    main-quic rustls decode tracing pki [] fresh ready over_quic
      (client_run_connector (1 ∷ []) (2 ∷ []) tls) refl quic_starts

main-tcp_example :
    ((over_tcp.secret ≡ none)
      × ◌≡◌ {A = Started rustls}
          (client_run (1 ∷ []) (2 ∷ []) (some secret))
          (client_run over_tcp.listen over_tcp.server none))
    ⊎ ((s : Bytes) × (key : Bytes) × (over_tcp.secret ≡ some s)
        × (decode s ≡ some key)
        × (length key ≡ key_len)
        × ◌≡◌ {A = Started rustls}
            (client_run (1 ∷ []) (2 ∷ []) (some secret))
            (client_run over_tcp.listen over_tcp.server (some key)))
main-tcp_example =
    main-tcp rustls decode tracing pki [] fresh ready over_tcp
      (client_run (1 ∷ []) (2 ∷ []) (some secret)) refl tcp_starts

abbrev quic_server : ServerCommand
quic_server = record {
  listen = 1 ∷ [];
  secret = none;
  transport = quic;
  quic_listen = some (9 ∷ []);
  quic_cert = some (5 ∷ []);
  quic_key = none;
}

loads : load_cert_and_key pki (5 ∷ []) (6 ∷ []) ≡ ok (5 ∷ [], 6 ∷ [])
unfolding load_cert_and_key collect
loads = refl

binds : quic_bind streams network any_address (5 ∷ []) (6 ∷ []) ≡ ok (v4 (0 ∷ 0 ∷ 0 ∷ 0 ∷ []) 0)
unfolding quic_bind parse_socket_addr read_ipv4 read_octet
binds = refl

insecure_tls : build_quic_client_tls rustls true none ≡ ok tls
unfolding build_quic_client_tls
insecure_tls = refl
