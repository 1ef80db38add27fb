-- ===== src/Server/Running/Secrecy.antt =====
-- Which connections a server with a secret makes sessions of.
use vs_vpn.Prelude.{
  ◌≡◌, refl, sym, ap, subst, ◌∙◌, [], ◌∷◌, Bytes, Bool, true, false, List, some, All, All-map, inl,
  inr,
}
use vs_vpn.Outcome.{Outcome, ok, err, panic, ok_injective, bind-ok, Outcome-cases}
use vs_vpn.Io.{Io}
use vs_vpn.Io.Listening.{Listeners, announce}
use vs_vpn.Std.Address.Socket.{SocketAddr}
use vs_vpn.Crypto.Primitives.{Suite}
use vs_vpn.Tunnel.{Tunnel, TunnelAcceptor, Schedule}
use vs_vpn.Tunnel.Encrypted
use vs_vpn.Tunnel.Encrypted.{EncryptedTunnel}
use vs_vpn.Tunnel.Acceptors.{EncryptedAcceptor, encrypted_bind, encrypted_acceptor}
use vs_vpn.Server.{Served, run_with}
use vs_vpn.Server.Running.{accepts, run_acceptor, run_bound, ServerRun, in_clear, run, under_key}

-- `a` stands in the list.
pub data In {A : Type 0} (a : A) : List A → Type 0 where
  at_front : {xs : List A} → In a (a ∷ xs)
  further : {b : A} {xs : List A} → In a xs → In a (b ∷ xs)

module _ {Stream : Type 0} {tunnel : Tunnel Stream} (acceptor : TunnelAcceptor tunnel) where
  open acceptor use {Acceptor, Arrival, accept}

  -- What `accept` gave for something that arrived
  abbrev pub AcceptedFrom : Acceptor → List Arrival → tunnel.State → Type 0
  AcceptedFrom a arrivals t =
      (arrived : Arrival) × (addr : SocketAddr) × In arrived arrivals
      × (accept a arrived ≡ ok (t, addr))

  -- The loop spawns a session only for what `accept` gave.
  pub run_acceptor-AcceptedFrom :
      (a : Acceptor) (arrivals : List Arrival)
      → All (AcceptedFrom a arrivals) (run_acceptor acceptor a arrivals).spawned
  unfolding run_acceptor accepts run_with
  run_acceptor-AcceptedFrom a [] = tt
  run_acceptor-AcceptedFrom a (arrived ∷ later) = elim (Outcome-cases (accept a arrived)) [
    | inl ((t, addr), e) ↦ rw e (
      (arrived, addr, at_front, e),
      All-map (λ u (r, from, i, h). (r, from, further i, h)) _ (run_acceptor-AcceptedFrom a later),
    )
    | inr (inl (e, h)) ↦ rw h tt
    | inr (inr h) ↦ rw h tt
  ]

  announced :
      (ready : Bool) (addr : Outcome SocketAddr) (loop served : Served tunnel.State)
      → (announce ready addr loop).loop ≡ ok served
      → loop ≡ served
  unfolding announce
  announced false addr loop served h = ok_injective h
  announced true (ok addr) loop served h = ok_injective h
  announced true (err e) loop served h = absurd (cc)
  announced true panic loop served h = absurd (cc)

  -- A loop that was reached is the one of the acceptor that was bound.
  pub run_bound-ok :
      (bound : Outcome Acceptor) (ready : Bool) (arrivals : List Arrival)
      (served : Served tunnel.State)
      → (run_bound acceptor bound ready arrivals).loop ≡ ok served
      → (a : Acceptor) × (bound ≡ ok a) × (run_acceptor acceptor a arrivals ≡ served)
  run_bound-ok (ok a) ready arrivals served h = (a, refl, announced ready _ _ served h)
  run_bound-ok (err e) ready arrivals served h = absurd (cc)
  run_bound-ok panic ready arrivals served h = absurd (cc)

module _ (crypto : Suite) (tokio : Io) (tcp : Listeners) (schedule : Schedule) where
  open tokio use {Stream}

  -- A tunnel that a handshake under `psk` has made on a connection that arrived
  abbrev pub Shaken :
      (psk : Bytes) → List (Bytes × Outcome (Stream × SocketAddr)) → EncryptedTunnel Stream → Type 0
  Shaken psk arrivals t =
      (random : Bytes) × (stream : Stream) × (addr : SocketAddr) × In (random, ok (stream, addr))
        arrivals
      × (Encrypted.new crypto tokio psk random false stream ≡ ok t)

  shaken :
      (a : EncryptedAcceptor tcp) (arrivals : List (Bytes × Outcome (Stream × SocketAddr)))
      (t : EncryptedTunnel Stream)
      → AcceptedFrom (encrypted_acceptor tcp tokio schedule crypto) a arrivals t
      → Shaken a.psk arrivals t
  unfolding Encrypted.accept
  shaken a arrivals t ((random, arrived), addr, i, h) =
      let ((stream, from), there, h₁) = bind-ok arrived _ h in
      let (u, made, h₂) = bind-ok (Encrypted.new crypto tokio a.psk random false stream) _ h₁ in
      (
        random,
        stream,
        from,
        subst (λ o. In (random, o) arrivals) there i,
        made ∙ ap (λ r. ok r.0) (ok_injective h₂),
      )

  abbrev pub IsFrom :
      (psk : Bytes)
      → List (Bytes × Outcome (Stream × SocketAddr))
      → Outcome (Served (EncryptedTunnel Stream))
      → Type 0
  IsFrom psk arrivals (ok served) = All (Shaken psk arrivals) served.spawned
  IsFrom psk arrivals (err e) = Unit
  IsFrom psk arrivals panic = Unit

  IsFrom-All :
      (psk : Bytes) (arrivals : List (Bytes × Outcome (Stream × SocketAddr)))
      (loop : Outcome (Served (EncryptedTunnel Stream)))
      → ((served : Served (EncryptedTunnel Stream))
          → loop ≡ ok served
          → All (Shaken psk arrivals) served.spawned)
      → IsFrom psk arrivals loop
  IsFrom-All psk arrivals (ok served) h = h served refl
  IsFrom-All psk arrivals (err e) h = tt
  IsFrom-All psk arrivals panic h = tt

  -- The run is under a key, and every session of its loop is that of a tunnel as above.
  abbrev pub IsSecret :
      (psk : Bytes) → List (Bytes × Outcome (Stream × SocketAddr)) → ServerRun Stream → Type 0
  IsSecret psk arrivals (in_clear r) = ⊥
  IsSecret psk arrivals (under_key r) = IsFrom psk arrivals r.loop

  -- A server that is given a secret, whatever arrives, makes a session only of connections on which the
  -- handshake under that secret succeeded; none of them is served in the clear.
  pub run-IsSecret :
      (listen psk : Bytes) (ready : Bool) (arrivals : List (Bytes × Outcome (Stream × SocketAddr)))
      → IsSecret psk arrivals (run crypto tokio tcp schedule listen (some psk) ready arrivals)
  unfolding run
  run-IsSecret listen psk ready arrivals = IsFrom-All psk arrivals _ sessions
    where
      sessions :
          (served : Served (EncryptedTunnel Stream))
          → (run_bound
              (encrypted_acceptor tcp tokio schedule crypto)
              (encrypted_bind tcp listen psk)
              ready
              arrivals).loop
            ≡ ok served
          → All (Shaken psk arrivals) served.spawned
      sessions served h =
          let acceptor = encrypted_acceptor tcp tokio schedule crypto in
          let (a, bound, ran) =
            run_bound-ok acceptor (encrypted_bind tcp listen psk) ready arrivals served h in
          let (listener, _, made) = bind-ok (tcp.bind listen) _ bound in
          let its_psk : a.psk ≡ psk = ap (λ b. b.psk) (sym (ok_injective made)) in
          subst (λ key. All (Shaken key arrivals) served.spawned) its_psk
            (subst (λ r. All (Shaken a.psk arrivals) r.spawned) ran
              (All-map (shaken a arrivals) _ (run_acceptor-AcceptedFrom acceptor a arrivals)))
