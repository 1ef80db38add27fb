-- ===== src/Client/Completed.antt =====
-- `relay_bidirectional` of the three transports, and what a client makes of its result.
use vs_vpn.Prelude.{◌≡◌, [], ◌∷◌, Bytes, Bool, true, false, Option, some, Option-cases, inl, inr}
use vs_vpn.Outcome.{Outcome, ok, err, panic}
use vs_vpn.Act.{Act}
use vs_vpn.Io.{Io}
use vs_vpn.Crypto.Primitives.{Suite}
use vs_vpn.Protocol.{succeeded}
use vs_vpn.Tunnel.{Tunnel, Schedule, settle, turn, race}
use vs_vpn.Tunnel.Plain
use vs_vpn.Tunnel.Plain.{plain}
use vs_vpn.Tunnel.Encrypted
use vs_vpn.Tunnel.Encrypted.{encrypted}
use vs_vpn.Tunnel.Quic
use vs_vpn.Tunnel.Quic.{Quinn, quic}
use vs_vpn.Client.{reply_bytes, send_socks_reply, on_status, run_tunnel_client}

-- A result that is no error
abbrev pub NoError : {A : Type 0} → Outcome A → Type 0
NoError (ok a) = Unit
NoError (err e) = ⊥
NoError panic = Unit

settle-NoError :
    {S : Type 0} (r : Outcome Bool) (s : S) (rest : Outcome (Option (Unit {0})) × S)
    → NoError rest.0
    → NoError (settle r s rest).0
settle-NoError (ok true) s rest h = tt
settle-NoError (ok false) s rest h = h
settle-NoError (err e) s rest h = tt
settle-NoError panic s rest h = tt

race-NoError :
    {S : Type 0} (out back : Act S Bool) (schedule : Schedule) (s : S)
    → NoError (race out back schedule s).0
unfolding race
race-NoError out back [] s = tt
race-NoError out back (d ∷ schedule) s =
    let (r, s') = turn out back d s in
    settle-NoError r s' (race out back schedule s') (race-NoError out back schedule s')

-- The transports of the program
pub data Transport (tokio : Io) : Tunnel tokio.Stream → Type 1 where
  over_tcp : (schedule : Schedule) → Transport tokio (plain tokio schedule)
  over_key :
      (crypto : Suite) (schedule : Schedule) → Transport tokio (encrypted crypto tokio schedule)
  over_quic : (quinn : Quinn) (schedule : Schedule) → Transport tokio (quic quinn tokio schedule)

module _ (tokio : Io) where
  open tokio use {Stream}

  relay_bidirectional-NoError :
      (tunnel : Tunnel Stream)
      → Transport tokio tunnel
      → (t : tunnel.State) (external : Stream)
      → NoError (tunnel.relay_bidirectional (t, external)).0
  unfolding Plain.relay_bidirectional Encrypted.relay_bidirectional Quic.relay_bidirectional
  relay_bidirectional-NoError _ (over_tcp schedule) t external = elim (Option-cases t.stream) [
    | inl e ↦ rw e tt
    | inr (s, e) ↦ rw e (race-NoError _ _ schedule _)
  ]
  relay_bidirectional-NoError _ (over_key crypto schedule) t external =
      elim (Option-cases t.stream) [
        | inl e ↦ rw e tt
        | inr (s, e) ↦ rw e (race-NoError _ _ schedule _)
      ]
  relay_bidirectional-NoError _ (over_quic quinn schedule) t external = elim (Option-cases t.send) [
    | inl e ↦ rw e tt
    | inr (s, e) ↦ elim (Option-cases t.recv) [
      | inl f ↦ rw (e, f) tt
      | inr (r, f) ↦ rw (e, f) (race-NoError _ _ schedule _)
    ]
  ]

  -- Once the server's status is 0 and the reply to the SOCKS5 client is written, a session never ends in
  -- an error, over any of the three transports, from any state and in any course of its relay: not where a
  -- read or a write of the relay fails, and not where a frame does not decrypt.
  pub run_tunnel_client-NoError :
      (tunnel : Tunnel Stream) (header more : Bytes) (conn conn' : Stream) (t t₁ t₂ : tunnel.State)
      → Transport tokio tunnel
      → tunnel.send_frame header t ≡ (ok tt, t₁)
      → tunnel.recv_frame t₁ ≡ (ok (some (0x00 ∷ more)), t₂)
      → tokio.write_all (reply_bytes succeeded) conn ≡ (ok tt, conn')
      → NoError (run_tunnel_client tokio tunnel header (record { conn = conn; tunnel = t })).0
  unfolding run_tunnel_client on_status send_socks_reply
  run_tunnel_client-NoError tunnel header more conn conn' t t₁ t₂ ours sent received replied =
      rw (sent, received, replied) (relay_bidirectional-NoError tunnel ours t₂ conn')
