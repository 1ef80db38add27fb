-- ===== src/Std/Address/V6.antt =====
-- Eight groups of four hexadecimal digits are read back as the sixteen octets that they print.
use vs_vpn.Prelude.{
  ℕ, zero, suc, ◌+◌, ◌*◌, ◌/◌, ◌%◌, ◌-◌, ◌<◌, ◌≤◌, ◌≡◌, refl, [], ◌∷◌, ◌++◌, arith, Bytes, IsByte,
  Bool, true, false, some, none, Option, ltb, ◌==◌, inl, inr, length, length-append,
  length-replicate, replicate, ap, if◌then◌else◌, lt→ltb, le→ltb, Option-cases,
}
use vs_vpn.Std.Address.V4.{length-read_ipv4}
use vs_vpn.Std.Words.{to_be_bytes}
use vs_vpn.Std.Format.{hex_digit}
use vs_vpn.Std.Address.{
  to_digit, read_digits, read_number, read_octet, read_group, read_given_char, read_ipv4,
  read_groups, separated, read_ipv6, parse_ipv6,
}
use native.Mathlib.Decide.{dec_lt}

-- No hexadecimal digit stands at the front.
pub data Stops : Bytes → Type 0 where
  at_end : Stops []
  at_colon : (s : Bytes) → Stops (b':' ∷ s)

digit : (d : ℕ) → d < 16 → to_digit 16 (hex_digit d) ≡ some d
unfolding to_digit
digit d h = ground arith

decimal : (d : ℕ) → d < 16 → to_digit 10 (hex_digit d) ≡ (if ltb d 10 then some d else none)
unfolding to_digit
decimal d h = ground arith

next_digit :
    (d : ℕ) (s : Bytes) (acc n : ℕ)
    → d < 16
    → acc * 16 + d ≤ 0xffff
    → n < 4
    → read_digits 16 0xffff 4 (hex_digit d ∷ s) acc n
      ≡ read_digits 16 0xffff 4 s (acc * 16 + d) (n + 1)
unfolding read_digits
next_digit d s acc n h k m =
    rw (digit d h, read_digits, le→ltb 0xffff (acc * 16 + d) k, le→ltb 4 (n + 1) (omega arith))

stop : {s : Bytes} (acc n : ℕ) → Stops s → read_digits 16 0xffff 4 s acc n ≡ some (acc, n, s)
unfolding read_digits
stop acc n at_end = refl
stop acc n (at_colon s) = refl

abbrev pub digits : ℕ → ℕ → Bytes → Bytes
digits a b s = hex_digit (a / 16) ∷ hex_digit (a % 16) ∷ hex_digit (b / 16) ∷ hex_digit (b % 16) ∷ s

-- The number behind four digits.
module _ (a b : ℕ) (s : Bytes) (ha : IsByte a) (hb : IsByte b) where
  read_group-digits : Stops s → read_group (digits a b s) ≡ some (a * 256 + b, s)
  unfolding read_group
  read_group-digits e =
      rw
        (
          next_digit (a / 16) (hex_digit (a % 16) ∷ hex_digit (b / 16) ∷ hex_digit (b % 16) ∷ s) 0 0
              (omega arith) (omega arith) (omega arith),
          next_digit (a % 16) (hex_digit (b / 16) ∷ hex_digit (b % 16) ∷ s) (0 * 16 + a / 16)
              (0 + 1) (omega arith) (omega arith) (omega arith),
          next_digit (b / 16) (hex_digit (b % 16) ∷ s) ((0 * 16 + a / 16) * 16 + a % 16) (0 + 1 + 1)
              (omega arith) (omega arith) (omega arith),
          next_digit (b % 16) s (((0 * 16 + a / 16) * 16 + a % 16) * 16 + b / 16) (0 + 1 + 1 + 1)
              (omega arith) (omega arith) (omega arith),
          stop ((((0 * 16 + a / 16) * 16 + a % 16) * 16 + b / 16) * 16 + b % 16) (0 + 1 + 1 + 1 + 1)
              e,
        )
        (ap (λ (k : ℕ). some (k, s)) (omega arith))

-- Whatever number is read, no dot follows it.
abbrev NoDot : Option (ℕ × ℕ × Bytes) → Type 0
NoDot none = Unit
NoDot (some (value, n, rest)) = read_given_char b'.' rest ≡ none

hex_digit-ne-dot : (d : ℕ) (s : Bytes) → d < 16 → read_given_char b'.' (hex_digit d ∷ s) ≡ none
unfolding read_given_char
hex_digit-ne-dot d s h = ground arith

module _ (d : ℕ) (s : Bytes) (acc n : ℕ) (h : d < 16) where
  NoDot-next :
      NoDot (read_digits 10 255 3 s (acc * 10 + d) (n + 1))
      → NoDot (read_digits 10 255 3 (hex_digit d ∷ s) acc n)
  unfolding read_digits
  NoDot-next later = elim (dec_lt d 10) [
    | yes p ↦
        rw (decimal d h, read_digits, lt→ltb d 10 p)
          (one (ltb 255 (acc * 10 + d)) (ltb 3 (n + 1)) _ later)
    | no p ↦ rw (decimal d h, read_digits, le→ltb d 10 (omega arith)) (hex_digit-ne-dot d s h)
  ]
    where
      one :
          (x y : Bool) (r : Option (ℕ × ℕ × Bytes))
          → NoDot r
          → NoDot (if x then none else if y then none else r)
      one true y r k = tt
      one false true r k = tt
      one false false r k = k

NoDot-last :
    (d : ℕ) (s : Bytes) (acc : ℕ) → d < 16 → NoDot (read_digits 10 255 3 (hex_digit d ∷ s) acc 3)
unfolding read_digits
NoDot-last d s acc h = elim (dec_lt d 10) [
  | yes p ↦ rw (decimal d h, read_digits, lt→ltb d 10 p) (one (ltb 255 (acc * 10 + d)))
  | no p ↦ rw (decimal d h, read_digits, le→ltb d 10 (omega arith)) (hex_digit-ne-dot d s h)
]
  where
    one : (x : Bool) → NoDot (if x then none else none)
    one true = tt
    one false = tt

-- An octet is not followed by a dot, so there is no IPv4 address.
no_octet :
    (r : Option (ℕ × ℕ × Bytes)) (s : Bytes)
    → NoDot r
    → read_digits 10 255 3 s 0 0 ≡ r
    → read_ipv4 s ≡ none
unfolding read_ipv4 read_octet read_number
no_octet none s h e = rw e
no_octet (some (value, n, rest)) s h e = rw e (ground arith)

module _ (a b : ℕ) (s : Bytes) (ha : IsByte a) (hb : IsByte b) where
  read_ipv4-digits : read_ipv4 (digits a b s) ≡ none
  read_ipv4-digits =
      no_octet _ _
        (NoDot-next _ _ 0 0 (omega arith) (
          NoDot-next _ _ _ 1 (omega arith)
            (NoDot-next _ _ _ 2 (omega arith) (NoDot-last _ _ _ (omega arith)))))
        refl

group_bytes : (a b : ℕ) → IsByte a → IsByte b → to_be_bytes (a * 256 + b) ≡ a ∷ b ∷ []
unfolding to_be_bytes
group_bytes a b h k = ground arith

module _ (room a b : ℕ) (s : Bytes) (ha : IsByte a) (hb : IsByte b) (e : Stops s) where
  no_ipv4 :
      (first : Bool) (n : ℕ)
      → (if n == 0
          then none
          else separated first read_ipv4 (if first then digits a b s else b':' ∷ digits a b s))
        ≡ none
  unfolding separated
  no_ipv4 true n = rw (read_ipv4-digits a b s ha hb) (ground arith)
  no_ipv4 false n = rw (read_ipv4-digits a b s ha hb) (ground arith)

  -- One more group, the first or a later one.
  pub read_groups-cons :
      (first : Bool) (octets : Bytes) (n : ℕ) (v4 : Bool) (end : Bytes)
      → read_groups room false s ≡ (octets, n, v4, end)
      → read_groups (suc room) first (if first then digits a b s else b':' ∷ digits a b s)
        ≡ (a ∷ b ∷ octets, n + 1, v4, end)
  unfolding read_groups
  read_groups-cons true octets n v4 end h =
      rw (no_ipv4 true room, read_groups)
        (rw (read_group-digits a b s ha hb e, h, group_bytes a b ha hb))
  read_groups-cons false octets n v4 end h =
      rw (no_ipv4 false room, read_groups)
        (rw (read_group-digits a b s ha hb e, h, group_bytes a b ha hb))

pub parse_ipv6-groups :
    (s octets : Bytes) → read_groups 8 true s ≡ (octets, 8, false, []) → parse_ipv6 s ≡ some octets
unfolding parse_ipv6 read_ipv6
parse_ipv6-groups s octets h = rw h

separated-ipv4 :
    (first : Bool) (s o rest : Bytes) → separated first read_ipv4 s ≡ some (o, rest) → length o ≡ 4
unfolding separated
separated-ipv4 true s o rest h = length-read_ipv4 s o rest h
separated-ipv4 false s o rest h = elim (Option-cases (read_given_char b':' s)) [
  | inl e ↦ absurd (none-ne-some (rw e at h))
  | inr (t, e) ↦ length-read_ipv4 t o rest (rw e at h)
]
  where
    none-ne-some : {A : Type 0} {a : A} → none ≡ some a → ⊥
    none-ne-some p = cc

ipv4_room :
    (room : ℕ) (first : Bool) (s o rest : Bytes)
    → (if room == 0 then none else separated first read_ipv4 s) ≡ some (o, rest)
    → (length o ≡ 4) × (1 ≤ room)
ipv4_room zero first s o rest h = cc
ipv4_room (suc room) first s o rest h = (separated-ipv4 first s o rest (ground arith), omega arith)

-- What `read_groups` returns holds two bytes for each group, and no more groups than there is room.
pub length-read_groups :
    (room : ℕ) (first : Bool) (s : Bytes)
    → (length (read_groups room first s).0 ≡ 2 * (read_groups room first s).1)
      × ((read_groups room first s).1 ≤ room)
unfolding read_groups to_be_bytes
length-read_groups zero first s = omega arith
length-read_groups (suc room) first s =
    elim (Option-cases (if room == 0 then none else separated first read_ipv4 s)) [
      | inl e ↦
          rw (e, read_groups)
            (elim (Option-cases (separated first read_group s)) [
              | inl k ↦ rw (k, read_groups) (omega arith)
              | inr ((g, rest), k) ↦
                  rw (k, read_groups) (omega (arith, length-read_groups room false rest))
            ])
      | inr ((o, rest), e) ↦ rw (e, read_groups) (omega (arith, ipv4_room room first s o rest e))
    ]

-- The zeros between the two parts fill the address.
length-filled :
    (head tail : Bytes) (n k : ℕ)
    → length head ≡ 2 * n
    → length tail ≡ 2 * k
    → n + k ≤ 8
    → length (head ++ replicate (16 - 2 * n - 2 * k) 0 ++ tail) ≡ 16
length-filled head tail n k h t fits = simp (length-append, length-replicate) (omega arith)

-- An accepted text has sixteen octets.
pub parse_ipv6-octets : (s o : Bytes) → parse_ipv6 s ≡ some o → length o ≡ 16
unfolding parse_ipv6 read_ipv6
parse_ipv6-octets s o h =
    let (head, n, v4, rest) = read_groups 8 true s in
    elim (Option-cases (read_given_char b':' rest)) [
      | inl e ↦ ground (arith, length-read_groups 8 true s)
      | inr (t, e) ↦ elim (Option-cases (read_given_char b':' t)) [
        | inl f ↦ ground (arith, length-read_groups 8 true s)
        | inr (u, f) ↦
            let (tail, k, _, end) = read_groups (8 - (n + 1)) true u in
            ground (
              arith,
              length-read_groups 8 true s,
              length-read_groups (8 - (n + 1)) true u,
              length-filled head tail n k,
            )
      ]
    ]
