-- ===== src/Cli.antt =====
-- bin/vs-vpn/src/main.rs: the secret, the TLS configuration of the QUIC client, and what each command
-- starts. Reading the arguments (clap), hex decoding and what certificates rest on are parameters.
pub mod Certificates
pub mod Checks
pub mod Environment
pub mod Main
mod Tests
use vs_vpn.Prelude.{
  ℕ, [], ◌∷◌, ◌++◌, Bytes, Bool, true, false, List, Option, none, some, length, ◌==◌, if◌then◌else◌,
}
use vs_vpn.Outcome.{
  Outcome, ok, err, panic, ◌>>=◌, ok_or, text, invalid_hex_key, key_length,
  fingerprint_not_implemented, quic_requires_verification,
}
use vs_vpn.Crypto.{key_len}
use vs_vpn.Cli.Environment.{Rustls, ServerCertVerifier, skip_cert_verification}
use vs_vpn.Tunnel.Quic.Cert.{Pki, generate_self_signed, load_cert_and_key}

pub data Transport : Type 0 where
  tcp quic : Transport

pub record ClientCommand : Type 0 where
  pub listen : Bytes
  pub server : Bytes
  pub secret : Option Bytes
  pub transport : Transport
  pub quic_insecure : Bool
  pub quic_fingerprint : Option Bytes

pub record ServerCommand : Type 0 where
  pub listen : Bytes
  pub secret : Option Bytes
  pub transport : Transport
  pub quic_listen : Option Bytes
  pub quic_cert : Option Bytes
  pub quic_key : Option Bytes

pub data Command : Type 0 where
  client : ClientCommand → Command
  server : ServerCommand → Command
  keygen : Command

abbrev pub alpn : Bytes
alpn = b'v' ∷ b's' ∷ b'-' ∷ b'v' ∷ b'p' ∷ b'n' ∷ []

module _ {Process : Type 0} (rustls : Rustls Process) where
  -- `rustls::ClientConfig` with a verifier of its own
  pub record ClientTls : Type 0 where
    pub verifier : ServerCertVerifier rustls
    pub alpn_protocols : List Bytes

  -- What `main` goes on to await, with its arguments.
  pub data Started : Type 0 where
    client_run : (listen server : Bytes) → (key : Option Bytes) → Started
    client_run_connector : (listen server : Bytes) → ClientTls → Started
    server_run : (listen : Bytes) → (key : Option Bytes) → Started
    server_run_acceptor : (listen certificate private_key : Bytes) → Started
    printed : Bytes → Started

  unfoldable pub build_quic_client_tls :
      (insecure : Bool) (fingerprint : Option Bytes) → Outcome ClientTls
  build_quic_client_tls true fingerprint =
      ok (record { verifier = skip_cert_verification rustls; alpn_protocols = alpn ∷ [] })
  build_quic_client_tls false (some fp) = err (text fingerprint_not_implemented)
  build_quic_client_tls false none = err (text quic_requires_verification)

-- `hex::decode`
module _ (decode : Bytes → Option Bytes) where
  unfoldable pub parse_secret : Bytes → Outcome Bytes
  parse_secret s = ok_or (decode s) (text invalid_hex_key) >>= λ bytes.
      if length bytes == key_len then ok bytes else err (text (key_length (length bytes)))

  -- `secret.as_deref().map(parse_secret).transpose()?`
  unfoldable pub parse_key : Option Bytes → Outcome (Option Bytes)
  parse_key none = ok none
  parse_key (some s) = parse_secret s >>= λ key. ok (some key)

-- What the certificates rest on
module _ (pki : Pki) where
  abbrev pub certificate : Option Bytes → Option Bytes → Outcome (Bytes × Bytes)
  certificate (some cert_path) (some key_path) = load_cert_and_key pki cert_path key_path
  certificate (some cert_path) none = generate_self_signed pki
  certificate none key_path = generate_self_signed pki

-- "0.0.0.0:9091", unless the option is given
abbrev pub quic_address : Option Bytes → Bytes
quic_address (some listen) = listen
quic_address none =
    b'0' ∷ b'.' ∷ b'0' ∷ b'.' ∷ b'0' ∷ b'.' ∷ b'0' ∷ b':' ∷ b'9' ∷ b'0' ∷ b'9' ∷ b'1' ∷ []

module _ {Process : Type 0} (rustls : Rustls Process) (decode : Bytes → Option Bytes) where
  abbrev pub start_client : ClientCommand → Transport → Outcome (Started rustls)
  start_client c tcp = parse_key decode c.secret >>= λ key. ok (client_run c.listen c.server key)
  start_client c quic = build_quic_client_tls rustls c.quic_insecure c.quic_fingerprint >>= λ tls.
      ok (client_run_connector c.listen c.server tls)

  abbrev pub start_server : Pki → ServerCommand → Transport → Outcome (Started rustls)
  start_server pki c tcp = parse_key decode c.secret >>= λ key. ok (server_run c.listen key)
  start_server pki c quic = certificate pki c.quic_cert c.quic_key >>= λ (cert_der, key_der).
      ok (server_run_acceptor (quic_address c.quic_listen) cert_der key_der)

  -- `match cli.command`, with the random key of `generate_psk` and `hex::encode`
  unfoldable pub start : Pki → (psk : Bytes) → Command → Outcome (Started rustls)
  start pki psk (client c) = start_client c c.transport
  start pki psk (server c) = start_server pki c c.transport
  start pki psk keygen = ok (printed (pki.hex_encode psk))
