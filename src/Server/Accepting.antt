-- ===== src/Server/Accepting.antt =====
-- The accepting loop of the server.
use vs_vpn.Prelude.{◌<◌, ◌≡◌, refl, ap, ◌∙◌, [], ◌∷◌, ◌++◌, Bytes, true, List, some, length}
use vs_vpn.Outcome.{Outcome, Message, ok, err, Error, io, unexpected_eof}
use vs_vpn.Io.{Io, Wire}
use vs_vpn.Crypto.Primitives.{Suite}
use vs_vpn.Crypto.{key_len, secure_handshake}
use vs_vpn.Tunnel.Encrypted.{EncryptedTunnel, new, accept}
use vs_vpn.Server.{Served, run_with}

-- What `accept()` answers for each of some connections.
abbrev pub accepted : {State : Type 0} → List State → List (Outcome State)
accepted [] = []
accepted (t ∷ ts) = ok t ∷ accepted ts

-- Tunnels are served in order, as many as come before the first error; that error ends the loop, and
-- no later connection is served.
pub run_with-error :
    {State : Type 0} (served : List State) (e : Error) (later : List (Outcome State))
    → run_with (accepted served ++ err e ∷ later)
      ≡ record { spawned = served; returned = some (err e) }
unfolding run_with
run_with-error [] e later = refl
run_with-error (t ∷ served) e later =
    ap (λ (r : Served _). record r { spawned = t ∷ r.spawned }) (run_with-error served e later)

module _ (crypto : Suite) (tokio : Io) (wire : Wire tokio) where
  open tokio use {Stream}

  -- The encrypted acceptor runs the handshake inside `accept()`: a client that closes its side before
  -- its 32 nonce bytes are there makes `accept()` fail, and this ends the server: the clients before
  -- it have their tasks, and no client behind it is ever served.
  pub run_with-early_close :
      (psk random : Bytes) (served : List (EncryptedTunnel Stream)) (s : Stream)
      (later : List (Outcome (EncryptedTunnel Stream)))
      → wire.closed s ≡ true
      → length (wire.arrived s) < key_len
      → (m : Message) × (run_with (accepted served ++ accept crypto tokio psk random (ok s) ∷ later)
          ≡ record { spawned = served; returned = some (err (io unexpected_eof m)) })
  run_with-early_close psk random served s later closed short =
      let (s', m, eof) = wire.read_exact_eof s key_len closed short in
      (
        m,
        ap (λ r. run_with (accepted served ++ r ∷ later)) (fails s' m eof)
            ∙ run_with-error served (io unexpected_eof m) later,
      )
    where
      fails :
          (s' : Stream) (m : Message)
          → tokio.read_exact key_len s ≡ (err (io unexpected_eof m), s')
          → accept crypto tokio psk random (ok s) ≡ err (io unexpected_eof m)
      fails s' m eof = unfold accept new secure_handshake in rw eof
