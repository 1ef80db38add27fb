-- ===== src/Protocol/Safety.antt =====
-- `parse_header` on any input: its length tests keep every index in range.
use vs_vpn.Prelude.{
  ℕ, ◌+◌, ◌≤◌, ◌≢◌, [], ◌∷◌, arith, Bytes, length, Option-cases, inl, inr, ltb, Bool-cases,
}
use vs_vpn.Outcome.{Outcome, ok, err, panic, ◌>>=◌}
use vs_vpn.Std.Slices.{index_in_range, slice_in_range}
use vs_vpn.Protocol.{
  AddressType, ipv4, domain, ipv6, address_type, header_address, header_port, parse_header,
}

-- No panic, and a success leaves two bytes for the port.
abbrev Safe : Bytes → Outcome (ℕ × Bytes) → Type 0
Safe d (ok (n, addr)) = n + 3 ≤ length d
Safe d (err e) = Unit
Safe d panic = ⊥

header_address-Safe : (t : AddressType) (d : Bytes) → Safe d (header_address t d)
unfolding header_address
header_address-Safe ipv4 d = elim (Bool-cases (ltb (length d) (1 + 4 + 2))) [
  | inl e ↦ rw e tt
  | inr e ↦
      let (a, pa) = index_in_range d 1 (ground arith) in
      let (b, pb) = index_in_range d 2 (ground arith) in
      let (c, pc) = index_in_range d 3 (ground arith) in
      let (x, px) = index_in_range d 4 (ground arith) in rw (e, pa, pb, pc, px) (ground arith)
]
header_address-Safe domain d = elim (Bool-cases (ltb (length d) (1 + 1))) [
  | inl e ↦ rw e tt
  | inr e ↦
      let (n, pn) = index_in_range d 1 (ground arith) in
      rw (e, pn)
        (elim (Bool-cases (ltb (length d) (1 + (1 + n) + 2))) [
          | inl f ↦ rw f tt
          | inr f ↦ rw (f, slice_in_range d 2 (2 + n) (omega arith) (ground arith)) (ground arith)
        ])
]
header_address-Safe ipv6 d = elim (Bool-cases (ltb (length d) (1 + 16 + 2))) [
  | inl e ↦ rw e tt
  | inr e ↦ rw (e, slice_in_range d 1 (1 + 16) (omega arith) (ground arith)) (ground arith)
]

-- The two bytes of the port.
port_step :
    (t : AddressType) (d : Bytes) (r : Outcome (ℕ × Bytes))
    → Safe d r
    → (r >>= header_port t d) ≢ panic
unfolding header_port
port_step t d (ok (n, addr)) h =
    let (hi, p) = index_in_range d (1 + n) (omega arith) in
    let (lo, q) = index_in_range d (1 + n + 1) (omega arith) in rw (p, q) (λ e. cc)
port_step t d (err e) h = λ p. cc
port_step t d panic h = absurd h

-- `parse_header` never panics: on every input, of any length, it returns a value or an error.
pub parse_header-ne-panic : (d : Bytes) → parse_header d ≢ panic
unfolding parse_header
parse_header-ne-panic [] = λ e. cc
parse_header-ne-panic (first ∷ rest) = elim (Option-cases (address_type first)) [
  | inl e ↦ rw e (λ p. cc)
  | inr (t, e) ↦ rw e (port_step t (first ∷ rest) _ (header_address-Safe t (first ∷ rest)))
]
