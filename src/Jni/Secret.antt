-- ===== src/Jni/Secret.antt =====
-- What becomes of a secret in the Android application.
use vs_vpn.Prelude.{
  ℕ, ◌*◌, ◌≡◌, refl, ap, ◌∙◌, [], ◌∷◌, arith, Bytes, false, Option, none, some, length,
  Option-cases, Bool-cases, inl, inr, ◌==◌,
}
use vs_vpn.Outcome.{Outcome, ok, err, panic}
use vs_vpn.Io.{Io}
use vs_vpn.Crypto.Primitives.{Suite}
use vs_vpn.Tunnel.{Schedule}
use vs_vpn.Cli.{parse_secret}
use vs_vpn.Tunnel.Plain
use vs_vpn.Tunnel.Plain.{plain}
use vs_vpn.Client.{handle_socks_client}
use vs_vpn.Client.Connecting.{serve_client}
use vs_vpn.Jni.{parse_secret_opt, secret_text, secret_key}

-- A secret that the command line accepts.
abbrev pub accepted : Outcome Bytes → Option Bytes
accepted (ok key) = some key
accepted (err e) = none
accepted panic = none

-- Where hex decoding gives one byte for two characters, the bridge takes the same keys as the command
-- line, and takes each secret that the command line refuses for no secret at all.
pub parse_secret_opt-parse_secret :
    (decode : Bytes → Option Bytes) (s : Bytes)
    → ((t bytes : Bytes) → decode t ≡ some bytes → length t ≡ 2 * length bytes)
    → parse_secret_opt decode (some s) ≡ accepted (parse_secret decode s)
unfolding parse_secret_opt parse_secret
parse_secret_opt-parse_secret decode [] hex = elim (Option-cases (decode [])) [
  | inl e ↦ rw e refl
  | inr (bytes, e) ↦ rw (e, empty bytes (hex [] bytes e)) refl
]
  where
    empty : (bytes : Bytes) → length {A = ℕ} [] ≡ 2 * length bytes → (length bytes == 32) ≡ false
    empty bytes h = ground arith
parse_secret_opt-parse_secret decode (c ∷ s) hex = elim (Option-cases (decode (c ∷ s))) [
  | inl e ↦ rw e refl
  | inr (bytes, e) ↦ elim (Bool-cases (length bytes == 32)) [
    | inl h ↦ rw (e, h) refl
    | inr h ↦ rw (e, h) refl
  ]
]

secret_key-parse_secret_opt :
    (decode : Bytes → Option Bytes) (s : Bytes)
    → secret_key decode (some s) ≡ parse_secret_opt decode (some s)
unfolding secret_key secret_text parse_secret_opt
secret_key-parse_secret_opt decode [] = refl
secret_key-parse_secret_opt decode (c ∷ s) = refl

module _ (crypto : Suite) (tokio : Io) where
  open tokio use {Stream}

  -- Where hex decoding gives one byte for two characters, a proxy that the application starts
  -- with a secret which the command line refuses serves its clients through the plain tunnel.
  pub serve_client-refused_secret :
      (decode : Bytes → Option Bytes) (s : Bytes) (dial : Bytes → Outcome Stream)
      (server_addr random : Bytes) (schedule : Schedule)
      → ((t bytes : Bytes) → decode t ≡ some bytes → length t ≡ 2 * length bytes)
      → accepted (parse_secret decode s) ≡ none
      → serve_client crypto tokio dial server_addr random schedule (secret_key decode (some s))
        ≡ handle_socks_client tokio (plain tokio schedule) (Plain.connect tokio dial server_addr)
  unfolding serve_client
  serve_client-refused_secret decode s dial server_addr random schedule hex refused =
      ap (serve_client crypto tokio dial server_addr random schedule) (
        secret_key-parse_secret_opt decode s ∙ parse_secret_opt-parse_secret decode s hex ∙ refused)
