-- ===== src/Tunnel/Quic/Cert.antt =====
-- feature/tunnel/quic/src/cert.rs: the certificate and the key of a QUIC server, generated or loaded.
-- rcgen, rustls_pemfile, SHA-256, hex and the file system are parameters.
pub mod Loading
use vs_vpn.Prelude.{[], ◌∷◌, Bytes, List, Option, none, some}
use vs_vpn.Outcome.{
  Outcome, ok, err, panic, ◌>>=◌, ok_or, io, other, cert_generation, no_certificate, no_private_key,
}
use vs_vpn.Act.{map_err_outcome}
use vs_vpn.Tunnel.Quic.{quic_err}
use vs_vpn.Tunnel.Quic.Endpoint.{labelled, first_of}

pub data SanType (DnsName : Type 0) : Type 0 where
  dns_name : DnsName → SanType DnsName
  ip_address : (octets : Bytes) → SanType DnsName

-- `rcgen::CertificateParams`, with the fields that the source sets
pub record CertificateParams (DnsName : Type 0) : Type 0 where
  pub common_name : Bytes
  pub subject_alt_names : List (SanType DnsName)

-- What the calls answer. The certificates of a PEM file come one after the other, each with its own error.
pub record Pki : Type 1 where
  pub DnsName : Type 0
  pub KeyPair : Type 0
  pub dns : Bytes → Outcome DnsName
  pub generate : Outcome KeyPair
  pub self_signed : CertificateParams DnsName → KeyPair → Outcome Bytes
  pub private_key_der : KeyPair → Bytes
  pub sha256 : Bytes → Bytes
  pub hex_encode : Bytes → Bytes
  pub read : (path : Bytes) → Outcome Bytes
  pub certs : (pem : Bytes) → List (Outcome Bytes)
  pub private_key : (pem : Bytes) → Outcome (Option Bytes)

-- `collect::<Result<Vec<_>, _>>()`: the first error, or all that there is.
unfoldable pub collect : {A : Type 0} → List (Outcome A) → Outcome (List A)
collect [] = ok []
collect (ok a ∷ later) = collect later >>= λ more. ok (a ∷ more)
collect (err e ∷ later) = err e
collect (panic ∷ later) = panic

module _ (pki : Pki) where
  unfoldable pub generate_self_signed : Outcome (Bytes × Bytes)
  generate_self_signed = do
    localhost ←
        map_err_outcome quic_err
          (pki.dns (b'l' ∷ b'o' ∷ b'c' ∷ b'a' ∷ b'l' ∷ b'h' ∷ b'o' ∷ b's' ∷ b't' ∷ []))
    key ← map_err_outcome quic_err pki.generate
    cert ← map_err_outcome (labelled cert_generation) (
        pki.self_signed
          (record {
            common_name = b'v' ∷ b's' ∷ b'-' ∷ b'v' ∷ b'p' ∷ b'n' ∷ [];
            subject_alt_names = dns_name localhost ∷ ip_address (127 ∷ 0 ∷ 0 ∷ 1 ∷ []) ∷ [];
          })
          key)
    ok (cert, pki.private_key_der key)

  abbrev pub fingerprint : (cert : Bytes) → Bytes
  fingerprint cert = pki.hex_encode (pki.sha256 cert)

  unfoldable pub load_cert_and_key : (cert_path key_path : Bytes) → Outcome (Bytes × Bytes)
  load_cert_and_key cert_path key_path = do
    cert_pem ← map_err_outcome quic_err (pki.read cert_path)
    key_pem ← map_err_outcome quic_err (pki.read key_path)
    certs ← map_err_outcome quic_err (collect (pki.certs cert_pem))
    cert ← ok_or (first_of certs) (io other no_certificate)
    found ← map_err_outcome quic_err (pki.private_key key_pem)
    key ← ok_or found (io other no_private_key)
    ok (cert, key)
