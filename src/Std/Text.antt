-- ===== src/Std/Text.antt =====
-- What the source uses of `str`, on the bytes of a text: `lines`, `trim` and the parser of unsigned
-- numbers.
pub mod Numbers
use vs_vpn.Prelude.{
  ℕ, zero, suc, ◌+◌, ◌*◌, ◌-◌, [], ◌∷◌, ◌++◌, Bytes, Bool, true, false, ◌&&◌, ◌||◌, List, Option,
  none, some, leb, ltb, ◌==◌, if◌then◌else◌,
}

abbrev pub reverse_onto : Bytes → Bytes → Bytes
reverse_onto [] acc = acc
reverse_onto (x ∷ xs) acc = reverse_onto xs (x ∷ acc)

-- `char::is_whitespace` of one byte, of two and of three: how many bytes the character takes at the
-- front of a text, and zero where it is no white space.
abbrev ascii_space : ℕ → Bool
ascii_space c = c == 32 || leb 9 c && leb c 13

abbrev space_two : ℕ → ℕ → Bool
space_two a b = a == 0xc2 && (b == 0x85 || b == 0xa0)

abbrev space_three : ℕ → ℕ → ℕ → Bool
space_three a b c =
    a == 0xe1 && b == 0x9a && c == 0x80
    || a == 0xe2 && b == 0x80 && (leb 0x80 c && leb c 0x8a || c == 0xa8 || c == 0xa9 || c == 0xaf)
    || a == 0xe2 && b == 0x81 && c == 0x9f
    || a == 0xe3 && b == 0x80 && c == 0x80

abbrev space : Bytes → ℕ
space [] = 0
space (a ∷ []) = if ascii_space a then 1 else 0
space (a ∷ b ∷ []) = if ascii_space a then 1 else if space_two a b then 2 else 0
space (a ∷ b ∷ c ∷ rest) =
    if ascii_space a then 1 else if space_two a b then 2 else if space_three a b c then 3 else 0

-- The same on a text that is read from its end.
abbrev space_back : Bytes → ℕ
space_back [] = 0
space_back (a ∷ []) = if ascii_space a then 1 else 0
space_back (a ∷ b ∷ []) = if ascii_space a then 1 else if space_two b a then 2 else 0
space_back (a ∷ b ∷ c ∷ rest) =
    if ascii_space a then 1 else if space_two b a then 2 else if space_three c b a then 3 else 0

-- Drops the bytes that are due, and then white space for as long as there is some.
unfoldable pub skip_spaces : (Bytes → ℕ) → ℕ → Bytes → Bytes
skip_spaces width n [] = []
skip_spaces width (suc n) (x ∷ xs) = skip_spaces width n xs
skip_spaces width zero (x ∷ xs) = elim (width (x ∷ xs)) [
  | zero ↦ x ∷ xs
  | suc n ↦ skip_spaces width n xs
]

-- `trim`
unfoldable pub trim : Bytes → Bytes
unfolding skip_spaces
trim s = reverse_onto (skip_spaces space_back 0 (reverse_onto (skip_spaces space 0 s) [])) []

-- A line without the carriage return at its end; the line comes in reverse.
abbrev line_end : Bytes → Bytes
line_end [] = []
line_end (c ∷ cs) = if c == 13 then reverse_onto cs [] else reverse_onto (c ∷ cs) []

unfoldable pub split_lines : (line : Bytes) → Bytes → List Bytes
split_lines [] [] = []
split_lines (c ∷ cs) [] = reverse_onto (c ∷ cs) [] ∷ []
split_lines line (x ∷ xs) =
    let ended = line_end line ∷ split_lines [] xs in
    let longer = split_lines (x ∷ line) xs in if x == 10 then ended else longer

-- `lines`
unfoldable pub lines : Bytes → List Bytes
unfolding split_lines
lines = split_lines []

-- `parse::<u16>` and `parse::<u32>`: at least one digit, an optional plus sign, at most `bound`
unfoldable pub digits_value : (bound : ℕ) → ℕ → Bytes → Option ℕ
digits_value bound acc [] = some acc
digits_value bound acc (c ∷ cs) =
    let value = acc * 10 + (c - b'0') in
    let rest = digits_value bound value cs in
    if leb b'0' c && leb c b'9' then (if leb value bound then rest else none) else none

unfoldable pub parse_unsigned : (bound : ℕ) → Bytes → Option ℕ
unfolding digits_value
parse_unsigned bound [] = none
parse_unsigned bound (c ∷ []) = if c == b'+' then none else digits_value bound 0 (c ∷ [])
parse_unsigned bound (c ∷ d ∷ cs) =
    if c == b'+' then digits_value bound 0 (d ∷ cs) else digits_value bound 0 (c ∷ d ∷ cs)

-- `rsplit_once(c)`: what is before the last `c`, and what is behind it
unfoldable pub rsplit_once : ℕ → Bytes → Option (Bytes × Bytes)
rsplit_once c [] = none
rsplit_once c (x ∷ xs) = elim (rsplit_once c xs) [
  | some (before, behind) ↦ some (x ∷ before, behind)
  | none ↦ if x == c then some ([], xs) else none
]

-- `strip_suffix(c)`
unfoldable pub strip_suffix : ℕ → Bytes → Option Bytes
strip_suffix c [] = none
strip_suffix c (x ∷ []) = if x == c then some [] else none
strip_suffix c (x ∷ y ∷ ys) = elim (strip_suffix c (y ∷ ys)) [
  | some front ↦ some (x ∷ front)
  | none ↦ none
]
