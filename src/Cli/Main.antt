-- ===== src/Cli/Main.antt =====
-- bin/vs-vpn/src/main.rs: `main`, the set-up and then the command.
use vs_vpn.Prelude.{◌≡◌, ap, Bytes, Option}
use vs_vpn.Outcome.{Outcome, ok, err, panic}
use vs_vpn.Act.{Act, lift, continue, ◌>>◌}
use vs_vpn.Tunnel.Quic.Cert.{Pki}
use vs_vpn.Cli.Environment.{Rustls, Tracing, init_tracing, init_rustls}
use vs_vpn.Cli.{Command, Started, start}

module _ {Process : Type 0} (rustls : Rustls Process) (decode : Bytes → Option Bytes) where
  -- The command is what clap reads.
  unfoldable pub main :
      Tracing Process → Pki → (psk : Bytes) → Command → Act Process (Started rustls)
  main tracing pki psk command = do
    init_tracing tracing
    init_rustls rustls
    lift (start rustls decode pki psk command)

  -- A `main` that comes to start something has passed the set-up, and the command says what.
  pub main-start :
      (tracing : Tracing Process) (pki : Pki) (psk : Bytes) (command : Command) (p p' : Process)
      (started : Started rustls)
      → main tracing pki psk command p ≡ (ok started, p')
      → start rustls decode pki psk command ≡ ok started
  unfolding main
  main-start tracing pki psk command p p' started h = by_tracing (init_tracing tracing p) h
    where
      by_rustls :
          (r : Outcome (Unit {0}) × Process)
          → continue (λ _. lift (start rustls decode pki psk command)) r.0 r.1 ≡ (ok started, p')
          → start rustls decode pki psk command ≡ ok started
      by_rustls (ok _, q) k = ap (λ x. x.0) k
      by_rustls (err e, q) k = absurd (cc)
      by_rustls (panic, q) k = absurd (cc)

      by_tracing :
          (r : Outcome (Unit {0}) × Process)
          → continue (λ _. init_rustls rustls >> lift (start rustls decode pki psk command)) r.0 r.1
            ≡ (ok started, p')
          → start rustls decode pki psk command ≡ ok started
      by_tracing (ok _, q) k = by_rustls (init_rustls rustls q) k
      by_tracing (err e, q) k = absurd (cc)
      by_tracing (panic, q) k = absurd (cc)
