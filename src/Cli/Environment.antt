-- ===== src/Cli/Environment.antt =====
-- bin/vs-vpn/src/main.rs: what `main` sets up before it reads the command line, and the verifier of the
-- QUIC client. The global state of the process, tracing_subscriber and rustls are parameters.
use vs_vpn.Prelude.{[], ◌∷◌, Bytes, List}
use vs_vpn.Outcome.{Outcome, ok, err, panic}
use vs_vpn.Act.{Act, ◌>>=◌, expect}

-- `EnvFilter::try_from_default_env`, `EnvFilter::new` and `fmt().with_env_filter(filter).init()`, on the
-- state of the process
pub record Tracing (Process : Type 0) : Type 1 where
  pub Filter : Type 0
  pub try_from_default_env : Outcome Filter
  pub new : Bytes → Filter
  pub init : Filter → Act Process (Unit {0})

-- `rustls::crypto`, with the provider of ring: `install_default` is on the state of the process
pub record Rustls (Process : Type 0) : Type 1 where
  pub Provider : Type 0
  pub Algorithms : Type 0
  pub Signed : Type 0
  pub Scheme : Type 0
  pub default_provider : Provider
  pub install_default : Provider → Act Process (Unit {0})
  pub signature_verification_algorithms : Provider → Algorithms
  pub verify_tls12_signature : (message cert : Bytes) → Signed → Algorithms → Outcome (Unit {0})
  pub verify_tls13_signature : (message cert : Bytes) → Signed → Algorithms → Outcome (Unit {0})
  pub supported_schemes : Algorithms → List Scheme

abbrev pub trace : Bytes
trace = b't' ∷ b'r' ∷ b'a' ∷ b'c' ∷ b'e' ∷ []

module _ {Process : Type 0} where
  module _ (tracing : Tracing Process) where
    -- `result.unwrap_or_else(|_| EnvFilter::new("trace"))`
    abbrev pub or_trace : Outcome tracing.Filter → Outcome tracing.Filter
    or_trace (ok filter) = ok filter
    or_trace (err e) = ok (tracing.new trace)
    or_trace panic = panic

    unfoldable pub init_tracing : Act Process (Unit {0})
    init_tracing = do
      filter ← λ process. (or_trace tracing.try_from_default_env, process)
      tracing.init filter

  module _ (rustls : Rustls Process) where
    unfoldable pub init_rustls : Act Process (Unit {0})
    init_rustls = expect (rustls.install_default rustls.default_provider)

    -- `trait ServerCertVerifier`
    pub record ServerCertVerifier : Type 0 where
      pub verify_server_cert :
          (end_entity : Bytes) (intermediates : List Bytes) (server_name ocsp_response now : Bytes)
          → Outcome (Unit {0})
      pub verify_tls12_signature : (message cert : Bytes) → rustls.Signed → Outcome (Unit {0})
      pub verify_tls13_signature : (message cert : Bytes) → rustls.Signed → Outcome (Unit {0})
      pub supported_verify_schemes : List rustls.Scheme

    abbrev pub ring_algorithms : rustls.Algorithms
    ring_algorithms = rustls.signature_verification_algorithms rustls.default_provider

    -- `SkipCertVerification`
    abbrev pub skip_cert_verification : ServerCertVerifier
    skip_cert_verification = record {
      verify_server_cert = λ end_entity intermediates server_name ocsp_response now. ok tt;
      verify_tls12_signature =
          λ message cert dss. rustls.verify_tls12_signature message cert dss ring_algorithms;
      verify_tls13_signature =
          λ message cert dss. rustls.verify_tls13_signature message cert dss ring_algorithms;
      supported_verify_schemes = rustls.supported_schemes ring_algorithms;
    }
