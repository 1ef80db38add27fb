-- ===== src/Protocol/Texts.antt =====
-- The texts that the program itself prints for an address are encoded as the address they came from.
use vs_vpn.Prelude.{
  ℕ, zero, suc, ◌*◌, ◌≡◌, refl, ap, ◌∙◌, [], ◌∷◌, arith, Bytes, IsByte, All, length, true, false,
  none, some, lt→ltb,
}
use vs_vpn.Std.Format.{show_hex}
use vs_vpn.Std.Address.{parse_ipv4, parse_ipv6, read_groups}
use vs_vpn.Std.Address.V4.{parse_ipv4-dotted}
use vs_vpn.Std.Address.V6.{Stops, at_end, at_colon, read_groups-cons, parse_ipv6-groups, digits}
use vs_vpn.Protocol.{ipv4, ipv6, ipv4_text, ipv6_text, ipv6_groups, encode_address}

-- `encode_address` finds the four octets, each below 256, of the dotted text that `read_address`
-- makes of them.
pub encode_address-ipv4_text :
    (a b c d : ℕ)
    → IsByte a
    → IsByte b
    → IsByte c
    → IsByte d
    → encode_address (ipv4_text a b c d) ≡ (ipv4, a ∷ b ∷ c ∷ d ∷ [])
unfolding encode_address ipv4_text
encode_address-ipv4_text a b c d ha hb hc hd =
    rw (parse_ipv4-dotted a b c d ha hb hc hd, encode_address)

groups-Stops : (octets : Bytes) → Stops (ipv6_groups octets)
unfolding ipv6_groups
groups-Stops [] = at_end
groups-Stops (a ∷ []) = at_end
groups-Stops (a ∷ b ∷ rest) = at_colon _

read_groups-ipv6_groups :
    (room : ℕ) (octets : Bytes)
    → All IsByte octets
    → length octets ≡ 2 * room
    → read_groups room false (ipv6_groups octets) ≡ (octets, room, false, [])
unfolding ipv6_groups show_hex
read_groups-ipv6_groups zero [] h e = unfold read_groups in refl
read_groups-ipv6_groups zero (a ∷ octets) h e = absurd (omega arith)
read_groups-ipv6_groups (suc room) [] h e = absurd (omega arith)
read_groups-ipv6_groups (suc room) (a ∷ []) h e = absurd (omega arith)
read_groups-ipv6_groups (suc room) (a ∷ b ∷ rest) (ha, (hb, h)) e =
    read_groups-cons room a b (ipv6_groups rest) ha hb (groups-Stops rest) false rest room false []
      (read_groups-ipv6_groups room rest h (omega arith))
    ∙ ap (λ (n : ℕ). (a ∷ b ∷ rest, n, false, [])) (omega arith)

length-ipv6_groups :
    (n : ℕ) (octets : Bytes) → length octets ≡ 2 * n → length (ipv6_groups octets) ≡ 5 * n
unfolding ipv6_groups show_hex
length-ipv6_groups zero [] e = refl
length-ipv6_groups zero (a ∷ octets) e = absurd (omega arith)
length-ipv6_groups (suc n) [] e = absurd (omega arith)
length-ipv6_groups (suc n) (a ∷ []) e = absurd (omega arith)
length-ipv6_groups (suc n) (a ∷ b ∷ rest) e = omega (arith, length-ipv6_groups n rest (omega arith))

-- `encode_address` finds the sixteen octets, each below 256, of the text that `read_address`
-- makes of them.
pub encode_address-ipv6_text :
    (octets : Bytes)
    → All IsByte octets
    → length octets ≡ 16
    → encode_address (ipv6_text octets) ≡ (ipv6, octets)
unfolding encode_address ipv6_text show_hex
encode_address-ipv6_text [] h e = absurd (omega arith)
encode_address-ipv6_text (a ∷ []) h e = absurd (omega arith)
encode_address-ipv6_text (a ∷ b ∷ rest) (ha, (hb, h)) e = rw (encode_address, too_long, found)
  where
    too_long : parse_ipv4 (digits a b (ipv6_groups rest)) ≡ none
    too_long =
        unfold parse_ipv4 in
        rw (
          lt→ltb 15 (length (digits a b (ipv6_groups rest)))
            (omega (arith, length-ipv6_groups 7 rest (omega arith))))

    found : parse_ipv6 (digits a b (ipv6_groups rest)) ≡ some (a ∷ b ∷ rest)
    found = parse_ipv6-groups _ _ (
        read_groups-cons 7 a b (ipv6_groups rest) ha hb (groups-Stops rest) true rest 7 false []
          (read_groups-ipv6_groups 7 rest h (omega arith)))
