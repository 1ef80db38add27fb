-- ===== src/Std/Address/V4.antt =====
-- The dotted text of four octets is read back as those octets.
use vs_vpn.Prelude.{
  ℕ, ◌+◌, ◌*◌, ◌/◌, ◌%◌, ◌<◌, ◌≤◌, ◌≡◌, refl, [], ◌∷◌, ◌++◌, arith, Bytes, IsByte, some, length,
  length-append, append-nil, le→ltb,
}
use vs_vpn.Std.Format.{show, show_one, show_two, show_three}
use vs_vpn.Std.Address.{to_digit, read_digits, read_octet, read_ipv4, parse_ipv4}
use native.Mathlib.Decide.{dec_lt}

-- No decimal digit stands at the front.
pub data Stops : Bytes → Type 0 where
  at_end : Stops []
  at_dot : (s : Bytes) → Stops (b'.' ∷ s)

digit : (d : ℕ) → d < 10 → to_digit 10 (b'0' + d) ≡ some d
unfolding to_digit
digit d h = ground arith

stop :
    {s : Bytes} (bound most acc n : ℕ)
    → Stops s
    → read_digits 10 bound most s acc n ≡ some (acc, n, s)
unfolding read_digits
stop bound most acc n at_end = refl
stop bound most acc n (at_dot s) = refl

next_digit :
    (bound most d : ℕ) (s : Bytes) (acc n : ℕ)
    → d < 10
    → acc * 10 + d ≤ bound
    → n < most
    → read_digits 10 bound most ((b'0' + d) ∷ s) acc n
      ≡ read_digits 10 bound most s (acc * 10 + d) (n + 1)
unfolding read_digits
next_digit bound most d s acc n h k m =
    rw (digit d h, read_digits, le→ltb bound (acc * 10 + d) k, le→ltb most (n + 1) (omega arith))

-- The digits of a byte, by their number.
module _ (n : ℕ) (s : Bytes) (e : Stops s) where
  octet_one : n < 10 → read_octet ((b'0' + n) ∷ s) ≡ some (n, s)
  unfolding read_octet
  octet_one h =
      rw (next_digit 255 3 n s 0 0 h (omega arith) (omega arith), stop 255 3 (0 * 10 + n) (0 + 1) e)
        (ground arith)

  octet_two : 10 ≤ n → n < 100 → read_octet ((b'0' + n / 10) ∷ (b'0' + n % 10) ∷ s) ≡ some (n, s)
  unfolding read_octet
  octet_two h k =
      rw
        (
          next_digit 255 3 (n / 10) ((b'0' + n % 10) ∷ s) 0 0 (omega arith) (omega arith)
              (omega arith),
          next_digit 255 3 (n % 10) s (0 * 10 + n / 10) (0 + 1) (omega arith) (omega arith)
              (omega arith),
          stop 255 3 ((0 * 10 + n / 10) * 10 + n % 10) (0 + 1 + 1) e,
        )
        (ground arith)

  octet_three :
      100 ≤ n
      → n < 256
      → read_octet ((b'0' + n / 100) ∷ (b'0' + n / 10 % 10) ∷ (b'0' + n % 10) ∷ s) ≡ some (n, s)
  unfolding read_octet
  octet_three h k =
      rw
        (
          next_digit 255 3 (n / 100) ((b'0' + n / 10 % 10) ∷ (b'0' + n % 10) ∷ s) 0 0 (omega arith)
              (omega arith) (omega arith),
          next_digit 255 3 (n / 10 % 10) ((b'0' + n % 10) ∷ s) (0 * 10 + n / 100) (0 + 1)
              (omega arith) (omega arith) (omega arith),
          next_digit 255 3 (n % 10) s ((0 * 10 + n / 100) * 10 + n / 10 % 10) (0 + 1 + 1)
              (omega arith) (omega arith) (omega arith),
          stop 255 3 (((0 * 10 + n / 100) * 10 + n / 10 % 10) * 10 + n % 10) (0 + 1 + 1 + 1) e,
        )
        (ground arith)

  read_octet-show : IsByte n → read_octet (show n ++ s) ≡ some (n, s)
  read_octet-show h = elim (dec_lt n 10) [
    | yes p ↦ rw (show_one n p) (octet_one p)
    | no p ↦ elim (dec_lt n 100) [
      | yes q ↦ rw (show_two n (omega arith) q) (octet_two (omega arith) q)
      | no q ↦ rw (show_three n (omega arith) (omega arith)) (octet_three (omega arith) h)
    ]
  ]

read_octet-show_end : (n : ℕ) → IsByte n → read_octet (show n) ≡ some (n, [])
read_octet-show_end n h = rw append-nil at (read_octet-show n [] at_end h)

length-show_byte : (n : ℕ) → IsByte n → length (show n) ≤ 3
length-show_byte n h = elim (dec_lt n 10) [
  | yes p ↦ rw (show_one n p) (omega arith)
  | no p ↦ elim (dec_lt n 100) [
    | yes q ↦ rw (show_two n (omega arith) q) (omega arith)
    | no q ↦ rw (show_three n (omega arith) (omega arith)) (omega arith)
  ]
]

module _ (a b c d : ℕ) (ha : IsByte a) (hb : IsByte b) (hc : IsByte c) (hd : IsByte d) where
  abbrev dotted : Bytes
  dotted = show a ++ b'.' ∷ (show b ++ b'.' ∷ (show c ++ b'.' ∷ show d))

  length-dotted : length dotted ≤ 15
  length-dotted = simp length-append (
      omega (
        arith,
        length-show_byte a ha,
        length-show_byte b hb,
        length-show_byte c hc,
        length-show_byte d hd,
      ))

  read_ipv4-dotted : read_ipv4 dotted ≡ some (a ∷ b ∷ c ∷ d ∷ [], [])
  unfolding read_ipv4
  read_ipv4-dotted = rw (
    read_octet-show a (b'.' ∷ (show b ++ b'.' ∷ (show c ++ b'.' ∷ show d))) (at_dot _) ha,
    read_octet-show b (b'.' ∷ (show c ++ b'.' ∷ show d)) (at_dot _) hb,
    read_octet-show c (b'.' ∷ show d) (at_dot _) hc,
    read_octet-show_end d hd,
  )

  pub parse_ipv4-dotted : parse_ipv4 dotted ≡ some (a ∷ b ∷ c ∷ d ∷ [])
  unfolding parse_ipv4
  parse_ipv4-dotted = rw (le→ltb 15 (length dotted) length-dotted, read_ipv4-dotted)

pub length-read_ipv4 : (s o rest : Bytes) → read_ipv4 s ≡ some (o, rest) → length o ≡ 4
unfolding read_ipv4
length-read_ipv4 s o rest h = ground arith

-- An accepted text has four octets.
pub parse_ipv4-octets : (s o : Bytes) → parse_ipv4 s ≡ some o → length o ≡ 4
unfolding parse_ipv4
parse_ipv4-octets s o h = ground (arith, length-read_ipv4 s o [])
