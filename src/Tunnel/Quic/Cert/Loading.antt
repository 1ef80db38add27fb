-- ===== src/Tunnel/Quic/Cert/Loading.antt =====
-- What a QUIC server loads or generates.
use vs_vpn.Prelude.{◌≡◌, ap, sym, ◌∙◌, [], ◌∷◌, Bytes, List, some}
use vs_vpn.Outcome.{Outcome, ok, err, panic, ok_injective, bind-ok, ok_or-ok}
use vs_vpn.Act.{map_err-ok}
use vs_vpn.Tunnel.Quic.Endpoint.{first_of}
use vs_vpn.Tunnel.Quic.Endpoint.Remote.{first_of-some}
use vs_vpn.Tunnel.Quic.Cert.{
  Pki, dns_name, ip_address, collect, generate_self_signed, load_cert_and_key,
}
use vs_vpn.Std.Asserts.{codes}

abbrev pub all_ok : {A : Type 0} → List A → List (Outcome A)
all_ok [] = []
all_ok (a ∷ more) = ok a ∷ all_ok more

collect-all_ok :
    {A : Type 0} (found : List (Outcome A)) {items : List A}
    → collect found ≡ ok items
    → found ≡ all_ok items
unfolding collect
collect-all_ok [] h = ap all_ok (ok_injective h)
collect-all_ok (ok a ∷ later) h =
    let (more, all, h₁) = bind-ok (collect later) _ h in
    ap (λ rest. ok a ∷ rest) (collect-all_ok later all) ∙ ap all_ok (ok_injective h₁)
collect-all_ok (err e ∷ later) h = absurd (cc)
collect-all_ok (panic ∷ later) h = absurd (cc)

module _ (pki : Pki) where
  -- A certificate and a key are loaded only from files that can both be read. The certificate is the first
  -- of its file, in which every other one, used or not, is well formed too; the key is the one that its
  -- file holds.
  pub load_cert_and_key-ok :
      (cert_path key_path cert key : Bytes)
      → load_cert_and_key pki cert_path key_path ≡ ok (cert, key)
      → (cert_pem : Bytes) × (key_pem : Bytes) × (others : List Bytes) × (pki.read cert_path
          ≡ ok cert_pem)
        × (pki.read key_path ≡ ok key_pem)
        × (pki.certs cert_pem ≡ all_ok (cert ∷ others))
        × (pki.private_key key_pem ≡ ok (some key))
  unfolding load_cert_and_key
  load_cert_and_key-ok cert_path key_path cert key h =
      let (cert_pem, read_cert, h₁) = bind-ok _ _ h in
      let (key_pem, read_key, h₂) = bind-ok _ _ h₁ in
      let (certs, parsed, h₃) = bind-ok _ _ h₂ in
      let (first, first_is, h₄) = bind-ok _ _ h₃ in
      let (others, certs_are) = first_of-some certs (ok_or-ok (first_of certs) _ first_is) in
      let (found, held, h₅) = bind-ok _ _ h₄ in
      let (found_key, found_is, h₆) = bind-ok _ _ h₅ in
      let cert_is : first ≡ cert = ap (λ r. r.0) (ok_injective h₆) in
      let key_is : found_key ≡ key = ap (λ r. r.1) (ok_injective h₆) in
      (
        cert_pem,
        key_pem,
        others,
        map_err-ok _ (pki.read cert_path) read_cert,
        map_err-ok _ (pki.read key_path) read_key,
        collect-all_ok _ (map_err-ok _ (collect (pki.certs cert_pem)) parsed)
            ∙ ap all_ok (certs_are ∙ ap (λ c. c ∷ others) cert_is),
        map_err-ok _ (pki.private_key key_pem) held
            ∙ ap ok (ok_or-ok found _ found_is ∙ ap some key_is),
      )

  -- A certificate for "vs-vpn", at localhost and 127.0.0.1, that the key made with it has signed, and this key
  pub record SelfSigned (cert key : Bytes) : Type 0 where
    pub localhost : pki.DnsName
    pub pair : pki.KeyPair
    pub named : pki.dns (codes "localhost") ≡ ok localhost
    pub made : pki.generate ≡ ok pair
    pub signed :
        pki.self_signed
          (record {
            common_name = codes "vs-vpn";
            subject_alt_names = dns_name localhost ∷ ip_address (127 ∷ 0 ∷ 0 ∷ 1 ∷ []) ∷ [];
          })
          pair
        ≡ ok cert
    pub key_of_pair : key ≡ pki.private_key_der pair

  pub generate_self_signed-SelfSigned :
      (cert key : Bytes) → generate_self_signed pki ≡ ok (cert, key) → SelfSigned cert key
  unfolding generate_self_signed
  generate_self_signed-SelfSigned cert key h =
      let (localhost, is_named, h₁) = bind-ok _ _ h in
      let (pair, is_made, h₂) = bind-ok _ _ h₁ in
      let (first, is_signed, h₃) = bind-ok _ _ h₂ in
      record {
        localhost = localhost;
        pair = pair;
        named = map_err-ok _ (pki.dns (codes "localhost")) is_named;
        made = map_err-ok _ pki.generate is_made;
        signed =
            map_err-ok _ (pki.self_signed _ pair) is_signed ∙ ap (λ r. ok (r.0)) (ok_injective h₃);
        key_of_pair = sym (ap (λ r. r.1) (ok_injective h₃));
      }
