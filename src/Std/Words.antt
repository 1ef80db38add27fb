-- ===== src/Std/Words.antt =====
-- `to_be_bytes`, `from_be_bytes` of u16 and `to_le_bytes` of u64.
use vs_vpn.Prelude.{ℕ, ◌+◌, ◌*◌, ◌/◌, ◌%◌, ◌^◌, ◌<◌, ◌≡◌, [], ◌∷◌, arith, Bytes, IsByte}

-- `n as u8` and `n as u16`
abbrev pub as_u8 : ℕ → ℕ
as_u8 n = n % 256

abbrev pub as_u16 : ℕ → ℕ
as_u16 n = n % 2 ^ 16

unfoldable pub to_be_bytes : ℕ → Bytes
to_be_bytes n = (n / 256 % 256) ∷ (n % 256) ∷ []

unfoldable pub from_be_bytes : ℕ → ℕ → ℕ
from_be_bytes hi lo = hi * 256 + lo

-- u64
unfoldable pub to_le_bytes : ℕ → Bytes
to_le_bytes n =
    (n % 256)
    ∷ (n / 2 ^ 8 % 256)
    ∷ (n / 2 ^ 16 % 256)
    ∷ (n / 2 ^ 24 % 256)
    ∷ (n / 2 ^ 32 % 256)
    ∷ (n / 2 ^ 40 % 256)
    ∷ (n / 2 ^ 48 % 256)
    ∷ (n / 2 ^ 56 % 256)
    ∷ []

pub from_be_bytes-to_be_bytes : (n : ℕ) → n < 2 ^ 16 → from_be_bytes (n / 256 % 256) (n % 256) ≡ n
unfolding from_be_bytes
from_be_bytes-to_be_bytes n h = omega arith

pub from_be_bytes-lt : (hi lo : ℕ) → IsByte hi → IsByte lo → from_be_bytes hi lo < 2 ^ 16
unfolding from_be_bytes
from_be_bytes-lt hi lo h k = omega arith

-- The value of bytes, lowest first.
abbrev pub le_value : Bytes → ℕ
le_value [] = 0
le_value (b ∷ bs) = b + 256 * le_value bs

-- The eight bytes spell the number: no two counters below 2 ^ 64 share them.
pub le_value-to_le_bytes : (n : ℕ) → n < 2 ^ 64 → le_value (to_le_bytes n) ≡ n
unfolding to_le_bytes
le_value-to_le_bytes n h = omega arith
