-- ===== src/Client/Unanswered.antt =====
-- `handle_socks_client` where the tunnel fails before the server's status is there.
use vs_vpn.Prelude.{ℕ, ◌≡◌, refl, ◌∙◌, [], ◌∷◌, ◌++◌, Bytes, true, none, some, length}
use vs_vpn.Outcome.{Outcome, ok, err, Error, text, server_closed}
use vs_vpn.Io.{Io, Wire}
use vs_vpn.Std.Words.{from_be_bytes}
use vs_vpn.Protocol.{address_code, tunnel_header}
use vs_vpn.Tunnel.{Tunnel}
use vs_vpn.Client.{contains, handle_socks_client, through, run_tunnel_client, on_status}
use vs_vpn.Client.Request.{Target, IsTarget, kind, request_address, target_addr, Left}
use vs_vpn.Client.Handling.{handle_socks_client-connect}

module _ (tokio : Io) (wire : Wire tokio) (tunnel : Tunnel tokio.Stream) where
  open tokio use {Stream}
  open tunnel use {State, send_frame, recv_frame}

  -- How it can fail: no connection to the server, an error on the way there or back, or an end of the
  -- tunnel before the status.
  pub data Fails (header : Bytes) : Outcome State → Error → Type 0 where
    unreachable : (e : Error) → Fails header (err e) e
    not_sent :
        (t t' : State) (e : Error) → send_frame header t ≡ (err e, t') → Fails header (ok t) e
    not_received :
        (t t₁ t₂ : State) (e : Error)
        → send_frame header t ≡ (ok tt, t₁)
        → recv_frame t₁ ≡ (err e, t₂)
        → Fails header (ok t) e
    closed :
        (t t₁ t₂ : State)
        → send_frame header t ≡ (ok tt, t₁)
        → recv_frame t₁ ≡ (ok none, t₂)
        → Fails header (ok t) (text server_closed)
    no_status :
        (t t₁ t₂ : State)
        → send_frame header t ≡ (ok tt, t₁)
        → recv_frame t₁ ≡ (ok (some []), t₂)
        → Fails header (ok t) (text server_closed)

  through-Fails :
      (header : Bytes) (connected : Outcome State) (e : Error) (s : Stream)
      → Fails header connected e
      → through tokio tunnel header connected s ≡ (err e, s)
  unfolding run_tunnel_client on_status
  through-Fails header _ _ s (unreachable e) = refl
  through-Fails header _ _ s (not_sent t t' e h) = rw h refl
  through-Fails header _ _ s (not_received t t₁ t₂ e h k) = rw (h, k) refl
  through-Fails header _ _ s (closed t t₁ t₂ h k) = rw (h, k) refl
  through-Fails header _ _ s (no_status t t₁ t₂ h k) = rw (h, k) refl

  -- A client that offers method 0 and asks to connect to a target (of an IPv6 target, sixteen octets),
  -- over a stream that takes what is written, is told that the method is accepted. Where the tunnel then
  -- fails before the server's status is there, in whichever way, the connection fails with that error, and
  -- the request gets no reply: nothing behind the two bytes of the greeting is written.
  pub handle_socks_client-unanswered :
      (connected : Outcome State) (e : Error) (s : Stream) (t : Target)
      (version version' reserved hi lo : ℕ) (methods rest : Bytes)
      → Fails (tunnel_header (target_addr t) (from_be_bytes hi lo)) connected e
      → contains 0x00 methods ≡ true
      → IsTarget t
      → wire.accepting s ≡ true
      → wire.arrived s
        ≡ version
          ∷ length methods
          ∷ (methods
              ++ (version'
                  ∷ 0x01
                  ∷ reserved
                  ∷ address_code (kind t)
                  ∷ (request_address t ++ (hi ∷ lo ∷ rest))))
      → (s' : Stream) × (handle_socks_client tokio tunnel connected s ≡ (err e, s'))
        × Left tokio wire s rest (0x05 ∷ 0x00 ∷ []) s'
  handle_socks_client-unanswered connected e s t v v' rsv hi lo methods rest fails offered h acc
        arrived =
      let (s', served, left) =
        handle_socks_client-connect tokio wire tunnel connected s t v v' rsv hi lo methods rest
          offered h acc arrived in
      (s', served ∙ through-Fails _ connected e s' fails, left)
