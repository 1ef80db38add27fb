-- ===== src/Client/Request.antt =====
-- A SOCKS5 client's bytes and what the proxy does with them.
use vs_vpn.Prelude.{ℕ, ◌≡◌, refl, ap, sym, ◌∙◌, [], ◌∷◌, ◌++◌, Bytes, true, false, length}
use vs_vpn.Outcome.{Outcome, ok, err, text, no_authentication_unsupported}
use vs_vpn.Io.{Io, Wire}
use vs_vpn.Std.Utf8.{from_utf8_lossy}
use vs_vpn.Protocol.{AddressType, ipv4, domain, ipv6, ipv4_text, ipv6_text}
use vs_vpn.Protocol.Read.{read_address}
use vs_vpn.Tunnel.{Tunnel}
use vs_vpn.Client.{contains, greet, handle_socks_client}

-- The target of a request, as RFC 1928 has it.
pub data Target : Type 0 where
  ipv4_target : (a b c d : ℕ) → Target
  domain_target : Bytes → Target
  ipv6_target : Bytes → Target

abbrev pub kind : Target → AddressType
kind (ipv4_target a b c d) = ipv4
kind (domain_target name) = domain
kind (ipv6_target octets) = ipv6

-- Its bytes in the request.
abbrev pub request_address : Target → Bytes
request_address (ipv4_target a b c d) = a ∷ b ∷ c ∷ d ∷ []
request_address (domain_target name) = length name ∷ name
request_address (ipv6_target octets) = octets

-- The text that the proxy makes of it.
abbrev pub target_addr : Target → Bytes
target_addr (ipv4_target a b c d) = ipv4_text a b c d
target_addr (domain_target name) = from_utf8_lossy name
target_addr (ipv6_target octets) = ipv6_text octets

-- An IPv6 address has sixteen octets.
abbrev pub IsTarget : Target → Type 0
IsTarget (ipv6_target octets) = length octets ≡ 16
IsTarget _ = Unit

module _ (tokio : Io) (wire : Wire tokio) where
  open tokio use {Stream}

  -- What a run has left of a stream: `rest` to read, `more` written, and it still takes bytes.
  abbrev pub Left : Stream → Bytes → Bytes → Stream → Type 0
  Left s rest more s' =
      (wire.arrived s' ≡ rest) × (wire.sent s' ≡ wire.sent s ++ more) × (wire.accepting s' ≡ true)

  pub read_lem :
      (s : Stream) (bytes rest : Bytes) (n : ℕ)
      → length bytes ≡ n
      → wire.accepting s ≡ true
      → wire.arrived s ≡ bytes ++ rest
      → (s' : Stream) × (tokio.read_exact n s ≡ (ok bytes, s'))
        × (wire.arrived s' ≡ rest)
        × (wire.sent s' ≡ wire.sent s)
        × (wire.accepting s' ≡ true)
  read_lem s bytes rest n size acc arrived =
      let (s', r, left, sent, _, acc') = wire.read_exact_arrived s bytes rest arrived in
      (s', ap (λ (k : ℕ). tokio.read_exact k s) (sym size) ∙ r, left, sent, acc' ∙ acc)

  pub read_address_lem :
      (t : Target) (s : Stream) (rest : Bytes)
      → IsTarget t
      → wire.accepting s ≡ true
      → wire.arrived s ≡ request_address t ++ rest
      → (s' : Stream) × (read_address tokio (kind t) s ≡ (ok (target_addr t), s'))
        × (wire.arrived s' ≡ rest)
        × (wire.sent s' ≡ wire.sent s)
        × (wire.accepting s' ≡ true)
  unfolding read_address
  read_address_lem (ipv4_target a b c d) s rest _ acc arrived =
      let (s', r, left, sent, acc') = read_lem s (a ∷ b ∷ c ∷ d ∷ []) rest 4 refl acc arrived in
      (s', rw r, left, sent, acc')
  read_address_lem (ipv6_target octets) s rest h acc arrived =
      let (s', r, left, sent, acc') = read_lem s octets rest 16 h acc arrived in
      (s', rw r, left, sent, acc')
  read_address_lem (domain_target name) s rest _ acc arrived =
      let (s₁, r₁, a₁, sent₁, acc₁) =
        read_lem s (length name ∷ []) (name ++ rest) 1 refl acc arrived in
      let (s₂, r₂, a₂, sent₂, acc₂) = read_lem s₁ name rest (length name) refl acc₁ a₁ in
      (s₂, rw (r₁, r₂), a₂, sent₂ ∙ sent₁, acc₂)

  -- The greeting is answered by 0 if method 0 is offered.
  pub greet_accepted :
      (s : Stream) (version : ℕ) (methods rest : Bytes)
      → contains 0x00 methods ≡ true
      → wire.accepting s ≡ true
      → wire.arrived s ≡ version ∷ length methods ∷ (methods ++ rest)
      → (s' : Stream) × (greet tokio s ≡ (ok tt, s')) × Left s rest (0x05 ∷ 0x00 ∷ []) s'
  unfolding greet
  greet_accepted s version methods rest offered acc arrived =
      let (s₁, r₁, a₁, sent₁, acc₁) =
        read_lem s (version ∷ length methods ∷ []) (methods ++ rest) 2 refl acc arrived in
      let (s₂, r₂, a₂, sent₂, acc₂) = read_lem s₁ methods rest (length methods) refl acc₁ a₁ in
      let (s₃, w, sent₃, left, _, acc₃) = wire.write_all_accepting s₂ (0x05 ∷ 0x00 ∷ []) acc₂ in
      (s₃, rw (r₁, r₂, offered, w), (left ∙ a₂, rw (sent₃, sent₂, sent₁), acc₃))

  -- A client that does not offer method 0 is told so, over a stream that takes what is written,
  -- and the connection fails.
  pub handle_socks_client-no_method :
      (tunnel : Tunnel Stream) (connected : Outcome tunnel.State) (s : Stream) (version : ℕ)
      (methods rest : Bytes)
      → contains 0x00 methods ≡ false
      → wire.accepting s ≡ true
      → wire.arrived s ≡ version ∷ length methods ∷ (methods ++ rest)
      → (s' : Stream) × (handle_socks_client tokio tunnel connected s
          ≡ (err (text no_authentication_unsupported), s'))
        × Left s rest (0x05 ∷ 0xff ∷ []) s'
  unfolding handle_socks_client greet
  handle_socks_client-no_method tunnel connected s version methods rest refused acc arrived =
      let (s₁, r₁, a₁, sent₁, acc₁) =
        read_lem s (version ∷ length methods ∷ []) (methods ++ rest) 2 refl acc arrived in
      let (s₂, r₂, a₂, sent₂, acc₂) = read_lem s₁ methods rest (length methods) refl acc₁ a₁ in
      let (s₃, w, sent₃, left, _, acc₃) = wire.write_all_accepting s₂ (0x05 ∷ 0xff ∷ []) acc₂ in
      (s₃, rw (r₁, r₂, refused, w), (left ∙ a₂, rw (sent₃, sent₂, sent₁), acc₃))
