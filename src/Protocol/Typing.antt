-- ===== src/Protocol/Typing.antt =====
-- What a header of bytes is parsed to: a text, and a number for a port.
use vs_vpn.Prelude.{
  ℕ, ◌+◌, ◌^◌, ◌<◌, ◌≡◌, subst, [], ◌∷◌, ◌++◌, arith, Bytes, All, All-append, All-map, IsByte,
  length, ltb, Bool-cases, inl, inr, Option-cases, ap,
}
use vs_vpn.Outcome.{
  Outcome, ok, err, ok_or, unsupported_address_type, Error, text, ok_injective, bind-ok,
}
use vs_vpn.Std.Words.{from_be_bytes-lt, to_be_bytes}
use vs_vpn.Std.Slices.{index, slice, index-IsByte, slice-IsByte}
use vs_vpn.Std.Utf8.{IsWellEncoded, IsAscii, from_utf8_lossy-ascii}
use vs_vpn.Std.Utf8.Lossy.{from_utf8_lossy-IsWellEncoded}
use vs_vpn.Std.Utf8.Bounds.{from_utf8_lossy-IsByte}
use vs_vpn.Std.Format.{show, show_hex}
use vs_vpn.Std.Address.{parse_ipv4, parse_ipv6}
use vs_vpn.Std.Address.Bounds.{parse_ipv4-IsByte, parse_ipv6-IsByte}
use vs_vpn.Std.Text.Numbers.{show_digits-IsDigit}
use vs_vpn.Protocol.{
  AddressType, ipv4, domain, ipv6, address_type, header_address, header_port, parse_header,
  ipv4_text, ipv6_groups, ipv6_text, encode_address, address_code, tunnel_header,
}

-- A Rust `String`
pub record IsText (s : Bytes) : Type 0 where
  pub bytes : All IsByte s
  pub encoded : IsWellEncoded s

ascii-IsText : (s : Bytes) → All IsAscii s → IsText s
ascii-IsText s h = record {
  bytes = All-map (λ c k. omega arith) s h;
  encoded = from_utf8_lossy-ascii s h;
}

show-IsAscii : (n : ℕ) → All IsAscii (show n)
unfolding show
show-IsAscii n = All-map (λ c k. omega (arith, k.1)) (show n) (show_digits-IsDigit 20 n)

dot-IsAscii : (s t : Bytes) → All IsAscii s → All IsAscii t → All IsAscii (s ++ b'.' ∷ t)
dot-IsAscii s t hs ht = All-append IsAscii s (b'.' ∷ t) hs (omega arith, ht)

ipv4_text-IsAscii : (a b c d : ℕ) → All IsAscii (ipv4_text a b c d)
unfolding ipv4_text
ipv4_text-IsAscii a b c d = dot-IsAscii (show a) _ (show-IsAscii a) (
    dot-IsAscii (show b) _ (show-IsAscii b)
      (dot-IsAscii (show c) (show d) (show-IsAscii c) (show-IsAscii d)))

show_hex-IsAscii : (b : ℕ) → IsByte b → All IsAscii (show_hex b)
unfolding show_hex
show_hex-IsAscii b h = (ground arith, (ground arith, tt))

pair-IsAscii : (a b : ℕ) → IsByte a → IsByte b → All IsAscii (show_hex a ++ show_hex b)
pair-IsAscii a b ha hb =
    All-append IsAscii (show_hex a) (show_hex b) (show_hex-IsAscii a ha) (show_hex-IsAscii b hb)

ipv6_groups-IsAscii : (octets : Bytes) → All IsByte octets → All IsAscii (ipv6_groups octets)
unfolding ipv6_groups
ipv6_groups-IsAscii [] h = tt
ipv6_groups-IsAscii (a ∷ []) h = tt
ipv6_groups-IsAscii (a ∷ b ∷ rest) (ha, (hb, h)) = (
  omega arith,
  All-append IsAscii (show_hex a ++ show_hex b) (ipv6_groups rest) (pair-IsAscii a b ha hb)
      (ipv6_groups-IsAscii rest h),
)

ipv6_text-IsAscii : (octets : Bytes) → All IsByte octets → All IsAscii (ipv6_text octets)
unfolding ipv6_text
ipv6_text-IsAscii [] h = tt
ipv6_text-IsAscii (a ∷ []) h = tt
ipv6_text-IsAscii (a ∷ b ∷ rest) (ha, (hb, h)) =
    All-append IsAscii (show_hex a ++ show_hex b) (ipv6_groups rest) (pair-IsAscii a b ha hb)
      (ipv6_groups-IsAscii rest h)

err-ne-ok : {A : Type 0} {e : Error} {a : A} → err e ≡ ok a → ⊥
err-ne-ok p = cc

address_eq : {n m : ℕ} {s t : Bytes} → ◌≡◌ {A = Outcome (ℕ × Bytes)} (ok (n, s)) (ok (m, t)) → s ≡ t
address_eq p = cc

header_address-IsText :
    (t : AddressType) (d : Bytes) (n : ℕ) (addr : Bytes)
    → All IsByte d
    → header_address t d ≡ ok (n, addr)
    → IsText addr
unfolding header_address
header_address-IsText ipv4 d n addr h e = elim (Bool-cases (ltb (length d) (1 + 4 + 2))) [
  | inl f ↦ absurd (err-ne-ok (rw (header_address, f) at e))
  | inr f ↦
      let (a, _, e₁) = bind-ok (index d 1) _ (rw (header_address, f) at e) in
      let (b, _, e₂) = bind-ok (index d 2) _ e₁ in
      let (c, _, e₃) = bind-ok (index d 3) _ e₂ in
      let (x, _, e₄) = bind-ok (index d 4) _ e₃ in
      subst IsText (address_eq e₄) (ascii-IsText (ipv4_text a b c x) (ipv4_text-IsAscii a b c x))
]
header_address-IsText domain d n addr h e = elim (Bool-cases (ltb (length d) (1 + 1))) [
  | inl f ↦ absurd (err-ne-ok (rw (header_address, f) at e))
  | inr f ↦
      let (len, _, e₁) = bind-ok (index d 1) _ (rw (header_address, f) at e) in
      elim (Bool-cases (ltb (length d) (1 + (1 + len) + 2))) [
        | inl g ↦ absurd (err-ne-ok (rw g at e₁))
        | inr g ↦
            let (name, cut, e₂) = bind-ok (slice d 2 (2 + len)) _ (rw g at e₁) in
            subst IsText (address_eq e₂) (record {
              bytes = from_utf8_lossy-IsByte name (slice-IsByte d 2 (2 + len) name h cut);
              encoded = from_utf8_lossy-IsWellEncoded name;
            })
      ]
]
header_address-IsText ipv6 d n addr h e = elim (Bool-cases (ltb (length d) (1 + 16 + 2))) [
  | inl f ↦ absurd (err-ne-ok (rw (header_address, f) at e))
  | inr f ↦
      let (octets, cut, e₁) = bind-ok (slice d 1 (1 + 16)) _ (rw (header_address, f) at e) in
      subst IsText (address_eq e₁) (
        ascii-IsText (ipv6_text octets)
          (ipv6_text-IsAscii octets (slice-IsByte d 1 (1 + 16) octets h cut)))
]

encode_address-IsByte : (addr : Bytes) → All IsByte addr → All IsByte (encode_address addr).1
unfolding encode_address
encode_address-IsByte addr h = elim (Option-cases (parse_ipv4 addr)) [
  | inr (octets, e) ↦ rw (e, encode_address) (parse_ipv4-IsByte addr octets e)
  | inl e ↦ elim (Option-cases (parse_ipv6 addr)) [
    | inr (octets, f) ↦ rw (e, f, encode_address) (parse_ipv6-IsByte addr octets f)
    | inl f ↦ rw (e, f, encode_address) (omega arith, h)
  ]
]

code-IsByte : (t : AddressType) → IsByte (address_code t)
unfolding address_code
code-IsByte ipv4 = omega arith
code-IsByte domain = omega arith
code-IsByte ipv6 = omega arith

tunnel_header-IsByte :
    (addr : Bytes) (port : ℕ) → All IsByte addr → All IsByte (tunnel_header addr port)
unfolding tunnel_header to_be_bytes
tunnel_header-IsByte addr port h =
    let (atyp, addr_bytes) = encode_address addr in
    (
      code-IsByte atyp,
      All-append IsByte addr_bytes (to_be_bytes port) (encode_address-IsByte addr h)
          (omega arith, (omega arith, tt)),
    )

-- What the header of any bytes is parsed to is well formed: the address is a Rust string, made of bytes
-- and encoded in UTF-8 whatever bytes the header has for a name, the port is below 2 ^ 16, and the header
-- of this address and port is bytes again.
pub parse_header-IsText :
    (d : Bytes) (t : AddressType) (addr : Bytes) (port : ℕ)
    → All IsByte d
    → parse_header d ≡ ok (t, addr, port)
    → IsText addr × (port < 2 ^ 16) × All IsByte (tunnel_header addr port)
unfolding parse_header header_port
parse_header-IsText [] t addr port h e = absurd (err-ne-ok e)
parse_header-IsText (first ∷ rest) t addr port h e =
    let (atyp, _, e₁) =
      bind-ok (ok_or (address_type first) (text (unsupported_address_type first))) _ e in
    let ((n, found), read, e₂) = bind-ok (header_address atyp (first ∷ rest)) _ e₁ in
    let (hi, at_hi, e₃) = bind-ok (index (first ∷ rest) (1 + n)) _ e₂ in
    let (lo, at_lo, e₄) = bind-ok (index (first ∷ rest) (1 + n + 1)) _ e₃ in
    let named : IsText addr =
      subst IsText (ap (λ p. p.1) (ok_injective e₄))
        (header_address-IsText atyp (first ∷ rest) n found h read) in
    (
      named,
      subst (λ (p : ℕ). p < 2 ^ 16) (ap (λ p. p.2) (ok_injective e₄))
          (from_be_bytes-lt hi lo (index-IsByte (first ∷ rest) (1 + n) hi h at_hi)
            (index-IsByte (first ∷ rest) (1 + n + 1) lo h at_lo)),
      tunnel_header-IsByte addr port named.bytes,
    )
