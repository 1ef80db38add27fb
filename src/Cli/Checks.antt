-- ===== src/Cli/Checks.antt =====
-- What the command line refuses to start.
use vs_vpn.Prelude.{
  ℕ, ◌≡◌, ◌≢◌, refl, ap, sym, ◌∙◌, arith, Bytes, Bool, true, false, List, Option, none, some,
  length, Option-cases, inl, inr, ◌⊎◌, ◌==◌, Bool-cases,
}
use vs_vpn.Outcome.{ok, err, ok_injective, ◌>>=◌, Error, text, invalid_hex_key, key_length}
use vs_vpn.Crypto.{key_len}
use vs_vpn.Tunnel.Quic.Cert.{Pki}
use vs_vpn.Cli.Environment.{Rustls, Tracing, ring_algorithms}
use vs_vpn.Cli.{
  ClientCommand, ClientTls, Started, client, client_run, client_run_connector, tcp, quic,
  build_quic_client_tls, parse_secret, parse_key, start, start_client,
}
use vs_vpn.Cli.Main.{main, main-start}

not_key_len : (n : ℕ) → (n == key_len) ≡ false → n ≢ key_len
not_key_len n h k = ground arith

err_ne_ok : {A : Type 0} (e : Error) (a : A) → err e ≢ ok a
err_ne_ok e a h = cc

some_injective : (a b : Bytes) → some a ≡ some b → a ≡ b
some_injective a b e = cc

module _ (decode : Bytes → Option Bytes) where
  -- The secret is what it decodes to where that is 32 bytes long. Every other secret is refused.
  pub parse_secret_lem :
      (s : Bytes)
      → ((key : Bytes) × (decode s ≡ some key)
          × (length key ≡ key_len)
          × (parse_secret decode s ≡ ok key))
        ⊎ (((bytes : Bytes) → decode s ≡ some bytes → length bytes ≢ key_len)
            × ((e : Error) × (parse_secret decode s ≡ err e)))
  unfolding parse_secret
  parse_secret_lem s = elim (Option-cases (decode s)) [
    | inl e ↦ inr ((λ bytes h. cc), (text invalid_hex_key, rw e))
    | inr (bytes, e) ↦ elim (Bool-cases (length bytes == key_len)) [
      | inl h ↦ inl (bytes, e, ground arith, rw (e, h))
      | inr h ↦ inr (
        λ other f k.
            not_key_len (length bytes) h (ap length (some_injective bytes other (sym e ∙ f)) ∙ k),
        (text (key_length (length bytes)), rw (e, h)),
      )
    ]
  ]

module _ {Process : Type 0} (rustls : Rustls Process) where
  -- A verifier that takes every certificate; only the signature in the handshake is looked at, with the key
  -- that this certificate names.
  abbrev pub TakesAny : ClientTls rustls → Type 0
  TakesAny tls =
      ((end_entity : Bytes) (intermediates : List Bytes) (name ocsp now : Bytes)
        → tls.verifier.verify_server_cert end_entity intermediates name ocsp now ≡ ok tt)
      × ((message cert : Bytes) (dss : rustls.Signed)
          → tls.verifier.verify_tls13_signature message cert dss
            ≡ rustls.verify_tls13_signature message cert dss (ring_algorithms rustls))

module _ {Process : Type 0} (rustls : Rustls Process) (decode : Bytes → Option Bytes)
    (tracing : Tracing Process) (pki : Pki) (psk : Bytes) (process process' : Process) where
  start-quic :
      (c : ClientCommand) (started : Started rustls)
      → c.transport ≡ quic
      → start rustls decode pki psk (client c) ≡ ok started
      → (c.quic_insecure ≡ true)
        × ((tls : ClientTls rustls) × (started ≡ client_run_connector c.listen c.server tls)
            × TakesAny rustls tls)
  unfolding start build_quic_client_tls
  start-quic c started h e =
      by_flags c.quic_insecure c.quic_fingerprint (ap (start_client rustls decode c) (sym h) ∙ e)
    where
      by_flags :
          (insecure : Bool) (fingerprint : Option Bytes)
          → (build_quic_client_tls rustls insecure fingerprint >>= λ tls.
              ok (client_run_connector c.listen c.server tls))
            ≡ ok started
          → (insecure ≡ true)
            × ((tls : ClientTls rustls) × (started ≡ client_run_connector c.listen c.server tls)
                × TakesAny rustls tls)
      by_flags true fingerprint f =
          (refl, (_, ok_injective (sym f), ((λ _ _ _ _ _. refl), (λ _ _ _. refl))))
      by_flags false (some fp) f = absurd (cc)
      by_flags false none f = absurd (cc)

  start-tcp :
      (c : ClientCommand) (started : Started rustls)
      → c.transport ≡ tcp
      → start rustls decode pki psk (client c) ≡ ok started
      → ((c.secret ≡ none) × (started ≡ client_run c.listen c.server none))
        ⊎ ((s : Bytes) × (key : Bytes) × (c.secret ≡ some s)
            × (decode s ≡ some key)
            × (length key ≡ key_len)
            × (started ≡ client_run c.listen c.server (some key)))
  unfolding start parse_key
  start-tcp c started h e = by_secret c.secret (ap (start_client rustls decode c) (sym h) ∙ e)
    where
      by_secret :
          (secret : Option Bytes)
          → (parse_key decode secret >>= λ key. ok (client_run c.listen c.server key)) ≡ ok started
          → ((secret ≡ none) × (started ≡ client_run c.listen c.server none))
            ⊎ ((s : Bytes) × (key : Bytes) × (secret ≡ some s)
                × (decode s ≡ some key)
                × (length key ≡ key_len)
                × (started ≡ client_run c.listen c.server (some key)))
      by_secret none f = inl (refl, cc)
      by_secret (some s) f = elim (parse_secret_lem decode s) [
        | inl (key, d, l, p) ↦ inr (s, key, refl, d, l, ok_injective (sym (rw p at f)))
        | inr (_, (x, p)) ↦ absurd (err_ne_ok x started (rw p at f))
      ]

  -- A QUIC client starts only with the flag --quic-insecure, whatever fingerprint is given, and then it
  -- takes any certificate under any name; of what the server sends only the signature is checked, by rustls
  -- and with the presented certificate. So no QUIC client that knows its server can be started.
  pub main-quic :
      (c : ClientCommand) (started : Started rustls)
      → c.transport ≡ quic
      → main rustls decode tracing pki psk (client c) process ≡ (ok started, process')
      → (c.quic_insecure ≡ true)
        × ((tls : ClientTls rustls) × (started ≡ client_run_connector c.listen c.server tls)
            × TakesAny rustls tls)
  main-quic c started h e =
      start-quic c started h
        (main-start rustls decode tracing pki psk (client c) process process' started e)

  -- A TCP client is started in the clear only where no secret is given, and otherwise with a key
  -- of 32 bytes that the secret decodes to.
  pub main-tcp :
      (c : ClientCommand) (started : Started rustls)
      → c.transport ≡ tcp
      → main rustls decode tracing pki psk (client c) process ≡ (ok started, process')
      → ((c.secret ≡ none) × (started ≡ client_run c.listen c.server none))
        ⊎ ((s : Bytes) × (key : Bytes) × (c.secret ≡ some s)
            × (decode s ≡ some key)
            × (length key ≡ key_len)
            × (started ≡ client_run c.listen c.server (some key)))
  main-tcp c started h e =
      start-tcp c started h
        (main-start rustls decode tracing pki psk (client c) process process' started e)
