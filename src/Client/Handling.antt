-- ===== src/Client/Handling.antt =====
-- A whole SOCKS5 request, served or refused.
use vs_vpn.Prelude.{
  ℕ, ◌≡◌, ◌≢◌, refl, ◌∙◌, [], ◌∷◌, ◌++◌, append_assoc, arith, Bytes, true, false, some, length,
  if◌then◌else◌, ◌==◌, leb,
}
use vs_vpn.Outcome.{Outcome, ok, err, text, unsupported_command, server_rejected}
use vs_vpn.Io.{Io, Wire}
use vs_vpn.Std.Words.{from_be_bytes}
use vs_vpn.Protocol.{address_code, tunnel_header, socks_command, command_not_supported, reply_code}
use vs_vpn.Protocol.Header.{address_type-address_code}
use vs_vpn.Tunnel.{Tunnel}
use vs_vpn.Client.{
  Session, contains, reply_bytes, status_reply, send_socks_reply, read_target, read_request,
  handle_socks_client, through, is_connect, on_status,
}
use vs_vpn.Client.Request.{
  Target, IsTarget, kind, request_address, target_addr, Left, read_lem, read_address_lem,
  greet_accepted,
}

module _ (tokio : Io) (wire : Wire tokio) where
  open tokio use {Stream}

  read_target_lem :
      (t : Target) (s : Stream) (hi lo : ℕ) (rest : Bytes)
      → IsTarget t
      → wire.accepting s ≡ true
      → wire.arrived s ≡ request_address t ++ (hi ∷ lo ∷ rest)
      → (s' : Stream) × (read_target tokio (address_code (kind t)) s
          ≡ (ok (target_addr t, from_be_bytes hi lo), s'))
        × (wire.arrived s' ≡ rest)
        × (wire.sent s' ≡ wire.sent s)
        × (wire.accepting s' ≡ true)
  unfolding read_target
  read_target_lem t s hi lo rest h acc arrived =
      let (s₁, r₁, a₁, sent₁, acc₁) =
        read_address_lem tokio wire t s (hi ∷ lo ∷ rest) h acc arrived in
      let (s₂, r₂, a₂, sent₂, acc₂) = read_lem tokio wire s₁ (hi ∷ lo ∷ []) rest 2 refl acc₁ a₁ in
      (s₂, rw (address_type-address_code (kind t), r₁, r₂), a₂, sent₂ ∙ sent₁, acc₂)

  -- A client that offers method 0 and asks to connect to a target (of an IPv6 target, sixteen
  -- octets) is answered, over a stream that takes what is written, and the rest is the tunnel's,
  -- with the header for the text of that target and its port. Nothing behind the request is read.
  -- (The version bytes and the reserved byte may be anything.)
  pub handle_socks_client-connect :
      (tunnel : Tunnel Stream) (connected : Outcome tunnel.State) (s : Stream) (t : Target)
      (version version' reserved hi lo : ℕ) (methods rest : Bytes)
      → contains 0x00 methods ≡ true
      → IsTarget t
      → wire.accepting s ≡ true
      → wire.arrived s
        ≡ version
          ∷ length methods
          ∷ (methods
              ++ (version'
                  ∷ 0x01
                  ∷ reserved
                  ∷ address_code (kind t)
                  ∷ (request_address t ++ (hi ∷ lo ∷ rest))))
      → (s' : Stream) × (handle_socks_client tokio tunnel connected s
          ≡ through tokio tunnel (tunnel_header (target_addr t) (from_be_bytes hi lo)) connected s')
        × Left tokio wire s rest (0x05 ∷ 0x00 ∷ []) s'
  unfolding handle_socks_client read_request socks_command
  handle_socks_client-connect tunnel connected s t v v' rsv hi lo methods rest offered h acc
        arrived =
      let (s₁, greeted, (a₁, sent₁, acc₁)) =
        greet_accepted tokio wire s v methods _ offered acc arrived in
      let (s₂, r₂, a₂, sent₂, acc₂) =
        read_lem tokio wire s₁ (v' ∷ 0x01 ∷ rsv ∷ address_code (kind t) ∷ []) _ 4 refl acc₁ a₁ in
      let (s₃, r₃, a₃, sent₃, acc₃) = read_target_lem t s₂ hi lo rest h acc₂ a₂ in
      (s₃, rw (greeted, r₂, r₃), (a₃, rw (sent₃, sent₂, sent₁), acc₃))

  -- A client that offers method 0 and sends any command but 1 is answered, over a stream that
  -- takes what is written, by the reply "command not supported", and the connection fails,
  -- whatever the tunnel is.
  pub handle_socks_client-other_command :
      (tunnel : Tunnel Stream) (connected : Outcome tunnel.State) (s : Stream)
      (version version' command reserved atyp : ℕ) (methods rest : Bytes)
      → contains 0x00 methods ≡ true
      → command ≢ 1
      → wire.accepting s ≡ true
      → wire.arrived s
        ≡ version ∷ length methods ∷ (methods ++ (version' ∷ command ∷ reserved ∷ atyp ∷ rest))
      → (s' : Stream) × (handle_socks_client tokio tunnel connected s
          ≡ (err (text unsupported_command), s'))
        × Left tokio wire s rest
            (0x05 ∷ 0x00 ∷ 0x05 ∷ 0x07 ∷ 0x00 ∷ 0x01 ∷ 0 ∷ 0 ∷ 0 ∷ 0 ∷ 0 ∷ 0 ∷ [])
            s'
  unfolding handle_socks_client read_request send_socks_reply reply_bytes reply_code address_code
  handle_socks_client-other_command tunnel connected s v v' cmd rsv atyp methods rest offered other
        acc arrived =
      let (s₁, greeted, (a₁, sent₁, acc₁)) =
        greet_accepted tokio wire s v methods _ offered acc arrived in
      let (s₂, r₂, a₂, sent₂, acc₂) =
        read_lem tokio wire s₁ (v' ∷ cmd ∷ rsv ∷ atyp ∷ []) rest 4 refl acc₁ a₁ in
      let (s₃, w, sent₃, left, _, acc₃) =
        wire.write_all_accepting s₂ (reply_bytes command_not_supported) acc₂ in
      (
        s₃,
        rw (greeted, r₂, not_connect cmd other, w),
        (left ∙ a₂, rw (sent₃, sent₂, sent₁) (append_assoc (wire.sent s) _ _), acc₃),
      )
    where
      not_connect : (c : ℕ) → c ≢ 1 → is_connect (socks_command c) ≡ false
      not_connect c h = unfold socks_command in ground arith

-- The reply code for a status that is not zero: the codes 1 to 5 are passed on, and every other
-- status is a general failure. It is never the code of a success.
pub reply_code-status_reply :
    (status : ℕ)
    → status ≢ 0
    → (reply_code (status_reply status) ≡ (if leb status 5 then status else 1))
      × (reply_code (status_reply status) ≢ 0)
unfolding reply_code status_reply
reply_code-status_reply status h = ground arith

module _ (tokio : Io) (wire : Wire tokio) where
  open tokio use {Stream}

  -- A status that is not zero reaches the SOCKS5 client, whose stream takes what is written, as
  -- the reply with its code, whatever follows it in the frame; the session fails, and its tunnel
  -- is left alone.
  pub on_status-rejected :
      (tunnel : Tunnel Stream) (session : Session Stream tunnel.State) (status : ℕ) (more : Bytes)
      → status ≢ 0
      → wire.accepting session.conn ≡ true
      → (conn : Stream) × (on_status tokio tunnel (some (status ∷ more)) session
          ≡ (err (text (server_rejected status)), record session { conn = conn }))
        × (wire.sent conn
            ≡ wire.sent session.conn
              ++ (0x05
                  ∷ (if leb status 5 then status else 1)
                  ∷ 0x00
                  ∷ 0x01
                  ∷ 0
                  ∷ 0
                  ∷ 0
                  ∷ 0
                  ∷ 0
                  ∷ 0
                  ∷ []))
  unfolding on_status send_socks_reply reply_bytes address_code
  on_status-rejected tunnel session status more h acc =
      let (conn, w, sent, _, _, _) =
        wire.write_all_accepting session.conn (reply_bytes (status_reply status)) acc in
      (conn, rw (not_zero, w), sent ∙ rw ((reply_code-status_reply status h).0))
    where
      not_zero : (status == 0x00) ≡ false
      not_zero = ground arith
