-- ===== src/Std/Utf8.antt =====
-- `String::from_utf8_lossy`: UTF-8 is kept, and each maximal invalid run becomes U+FFFD.
pub mod Bounds
pub mod Lossy
use vs_vpn.Prelude.{
  ℕ, ◌-◌, ◌<◌, ◌≡◌, refl, [], ◌∷◌, ◌++◌, arith, Bytes, ◌&&◌, leb, ltb, All, ◌==◌, if◌then◌else◌,
}

-- Between characters, or inside one: the bytes held so far, how many are to come, and the range of
-- the next.
pub data Decoder : Type 0 where
  between : Decoder
  inside : Bytes → ℕ → ℕ → ℕ → Decoder

abbrev pub replacement : Bytes
replacement = 0xef ∷ 0xbf ∷ 0xbd ∷ []

-- The first byte of a character.
pub lead : ℕ → Bytes × Decoder
lead c =
    if ltb c 0x80
    then (c ∷ [], between)
    else if ltb c 0xc2
    then (replacement, between)
    else if ltb c 0xe0
    then ([], inside (c ∷ []) 1 0x80 0xbf)
    else if c == 0xe0
    then ([], inside (c ∷ []) 2 0xa0 0xbf)
    else if c == 0xed
    then ([], inside (c ∷ []) 2 0x80 0x9f)
    else if ltb c 0xf0
    then ([], inside (c ∷ []) 2 0x80 0xbf)
    else if c == 0xf0
    then ([], inside (c ∷ []) 3 0x90 0xbf)
    else if ltb c 0xf4
    then ([], inside (c ∷ []) 3 0x80 0xbf)
    else if c == 0xf4
    then ([], inside (c ∷ []) 3 0x80 0x8f)
    else (replacement, between)

-- A byte that fits the character is held; one that does not is read as a first byte.
feed : Decoder → ℕ → Bytes × Decoder
unfolding lead
feed between c = lead c
feed (inside held todo lo hi) c =
    let next = lead c in
    if leb lo c && leb c hi
    then (if leb todo 1
        then (held ++ c ∷ [], between)
        else ([], inside (held ++ c ∷ []) (todo - 1) 0x80 0xbf))
    else (replacement ++ next.0, next.1)

finish : Decoder → Bytes
finish between = []
finish (inside held todo lo hi) = replacement

decode : Decoder → Bytes → Bytes
unfolding feed finish
decode d [] = finish d
decode d (c ∷ cs) = let (out, d') = feed d c in out ++ decode d' cs

unfoldable pub from_utf8_lossy : Bytes → Bytes
unfolding decode
from_utf8_lossy = decode between

-- What every Rust `str` is.
abbrev pub IsWellEncoded : Bytes → Type 0
IsWellEncoded s = from_utf8_lossy s ≡ s

abbrev pub IsAscii : ℕ → Type 0
IsAscii c = c < 128

pub from_utf8_lossy-ascii : (s : Bytes) → All IsAscii s → IsWellEncoded s
unfolding from_utf8_lossy
from_utf8_lossy-ascii [] h = refl
from_utf8_lossy-ascii (c ∷ s) (hc, h) = ground (arith, from_utf8_lossy-ascii s h)
