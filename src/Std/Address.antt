-- ===== src/Std/Address.antt =====
-- `str::parse` of `Ipv4Addr` and `Ipv6Addr`, as the parser of `core::net` reads them.
pub mod Bounds
pub mod Socket
pub mod V4
pub mod V6
use vs_vpn.Prelude.{
  ℕ, zero, suc, ◌+◌, ◌-◌, ◌*◌, ◌≤◌, ◌<◌, ◌≡◌, refl, [], ◌∷◌, ◌++◌, arith, Bytes, Bool, true, false,
  not, ◌&&◌, Option, none, some, leb, ltb, ◌==◌, length, replicate, if◌then◌else◌,
}
use vs_vpn.Std.Words.{to_be_bytes}

infixl 5 ◌>>=◌ ◌>>◌
abbrev pub ◌>>=◌ {ℓ κ} : {A : Type ℓ} {B : Type κ} → Option A → (A → Option B) → Option B
none >>= f = none
some a >>= f = f a

abbrev ◌>>◌ {ℓ κ} : {A : Type ℓ} {B : Type κ} → Option A → Option B → Option B
m >> k = m >>= λ _. k

-- `char::to_digit(radix)` for a radix up to 16
unfoldable pub to_digit : ℕ → ℕ → Option ℕ
to_digit radix c =
    if leb b'0' c && leb c b'9'
    then (if ltb (c - b'0') radix then some (c - b'0') else none)
    else if leb b'a' c && leb c b'f'
    then (if ltb (c - 87) radix then some (c - 87) else none)
    else if leb b'A' c && leb c b'F'
    then (if ltb (c - 55) radix then some (c - 55) else none)
    else none

-- The digits at the front of the text: their value, how many there are, and the text behind them.
-- `none` if the value passes `bound` or the digits are more than `most`.
unfoldable pub read_digits : (radix bound most : ℕ) → Bytes → ℕ → ℕ → Option (ℕ × ℕ × Bytes)
unfolding to_digit
read_digits radix bound most [] acc n = some (acc, n, [])
read_digits radix bound most (c ∷ cs) acc n = elim (to_digit radix c) [
  | none ↦ some (acc, n, c ∷ cs)
  | some d ↦
      let rest = read_digits radix bound most cs (acc * radix + d) (n + 1) in
      if ltb bound (acc * radix + d) then none else if ltb most (n + 1) then none else rest
]

abbrev pub starts_zero : Bytes → Bool
starts_zero [] = false
starts_zero (c ∷ cs) = c == b'0'

unfoldable pub read_number : (radix bound most : ℕ) → Bool → Bytes → Option (ℕ × Bytes)
unfolding read_digits
read_number radix bound most allow_zero_prefix s = do
  (value, n, rest) ← read_digits radix bound most s 0 0
  (if n == 0
      then none
      else if not allow_zero_prefix && starts_zero s && ltb 1 n
      then none
      else some (value, rest))

unfoldable pub read_given_char : ℕ → Bytes → Option Bytes
read_given_char c [] = none
read_given_char c (b ∷ s) = if b == c then some s else none

-- An octet of an IPv4 address
unfoldable pub read_octet : Bytes → Option (ℕ × Bytes)
unfolding read_number
read_octet = read_number 10 255 3 false

unfoldable pub read_ipv4 : Bytes → Option (Bytes × Bytes)
unfolding read_given_char
read_ipv4 s = do
  (a, s₁) ← read_octet s
  t₁ ← read_given_char b'.' s₁
  (b, s₂) ← read_octet t₁
  t₂ ← read_given_char b'.' s₂
  (c, s₃) ← read_octet t₂
  t₃ ← read_given_char b'.' s₃
  (d, s₄) ← read_octet t₃
  some (a ∷ b ∷ c ∷ d ∷ [], s₄)

abbrev pub whole : {A : Type 0} → A × Bytes → Option A
whole (a, []) = some a
whole (a, c ∷ rest) = none

-- `addr.parse::<Ipv4Addr>()`, as its octets
unfoldable pub parse_ipv4 : Bytes → Option Bytes
parse_ipv4 s = if ltb 15 (length s) then none else (do r ← read_ipv4 s; whole r)

-- The separator stands before every group but the first.
unfoldable pub separated : {A : Type 0} → Bool → (Bytes → Option A) → Bytes → Option A
unfolding read_given_char
separated first inner s = if first then inner s else (do t ← read_given_char b':' s; inner t)

unfoldable pub read_group : Bytes → Option (ℕ × Bytes)
unfolding read_number
read_group = read_number 16 0xffff 4 true

-- The groups that were read, as bytes, how many they are, whether an IPv4 address ended them, and
-- the text behind them.
unfoldable pub read_groups : ℕ → Bool → Bytes → Bytes × ℕ × Bool × Bytes
unfolding separated
read_groups zero first s = ([], 0, false, s)
read_groups (suc room) first s = elim (if room == 0 then none else separated first read_ipv4 s) [
  | some (octets, rest) ↦ (octets, 2, true, rest)
  | none ↦ elim (separated first read_group s) [
    | none ↦ ([], 0, false, s)
    | some (group, rest) ↦
        let (groups, n, v4, end) = read_groups room false rest in
        (to_be_bytes group ++ groups, n + 1, v4, end)
  ]
]

unfoldable pub read_ipv6 : Bytes → Option (Bytes × Bytes)
unfolding read_given_char
read_ipv6 s =
    let (head, n, v4, rest) = read_groups 8 true s in
    if n == 8 then some (head, rest) else if v4 then none else (do
      t ← read_given_char b':' rest
      u ← read_given_char b':' t
      let (tail, k, _, end) = read_groups (8 - (n + 1)) true u
      some (head ++ replicate (16 - 2 * n - 2 * k) 0 ++ tail, end))

-- `addr.parse::<Ipv6Addr>()`, as its octets
unfoldable pub parse_ipv6 : Bytes → Option Bytes
parse_ipv6 s = do r ← read_ipv6 s; whole r
