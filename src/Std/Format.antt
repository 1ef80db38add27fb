-- ===== src/Std/Format.antt =====
-- `format!` of numbers: `{}` of an unsigned integer and `{:02x}` of a byte.
use vs_vpn.Prelude.{
  ℕ, zero, suc, ◌+◌, ◌-◌, ◌/◌, ◌%◌, ◌≤◌, ◌<◌, ◌≡◌, ap, [], ◌∷◌, ◌++◌, arith, Bytes, ltb,
  if◌then◌else◌, lt→ltb, le→ltb,
}

-- Each round writes a digit; twenty rounds are enough below 10 ^ 20, so for every u64.
unfoldable pub show_digits : ℕ → ℕ → Bytes
show_digits zero n = []
show_digits (suc f) n =
    let rest = show_digits f (n / 10) ++ (b'0' + n % 10) ∷ [] in
    if ltb n 10 then (b'0' + n) ∷ [] else rest

-- `{}`
unfoldable pub show : ℕ → Bytes
unfolding show_digits
show n = show_digits 20 n

abbrev pub hex_digit : ℕ → ℕ
hex_digit d = if ltb d 10 then b'0' + d else b'a' + d - 10

-- `{:02x}`
unfoldable pub show_hex : ℕ → Bytes
show_hex b = hex_digit (b / 16) ∷ hex_digit (b % 16) ∷ []

-- The text of a byte, by its number of digits.
pub show_one : (n : ℕ) → n < 10 → show n ≡ (b'0' + n) ∷ []
unfolding show
show_one n h = ground arith

pub show_two : (n : ℕ) → 10 ≤ n → n < 100 → show n ≡ (b'0' + n / 10) ∷ (b'0' + n % 10) ∷ []
unfolding show
show_two n h k = rw (le→ltb n 10 h, lt→ltb (n / 10) 10 (omega arith))

pub show_three :
    (n : ℕ)
    → 100 ≤ n
    → n < 1000
    → show n ≡ (b'0' + n / 100) ∷ (b'0' + n / 10 % 10) ∷ (b'0' + n % 10) ∷ []
unfolding show
show_three n h k =
    rw
      (
        le→ltb n 10 (omega arith),
        le→ltb (n / 10) 10 (omega arith),
        lt→ltb (n / 10 / 10) 10 (omega arith),
      )
      (ap (λ (k : ℕ). (b'0' + k) ∷ (b'0' + n / 10 % 10) ∷ (b'0' + n % 10) ∷ []) (omega arith))
