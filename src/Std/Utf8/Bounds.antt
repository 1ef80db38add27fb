-- ===== src/Std/Utf8/Bounds.antt =====
-- What `from_utf8_lossy` makes of bytes.
use vs_vpn.Prelude.{
  ℕ, [], ◌∷◌, arith, Bytes, ◌&&◌, leb, Bool-cases, inl, inr, All, All-append, IsByte,
}
use vs_vpn.Std.Utf8.{
  Decoder, between, inside, replacement, lead, feed, finish, decode, from_utf8_lossy,
}
use vs_vpn.Std.Utf8.Lossy.{whole, invalid, begins, lead-Lead}

abbrev Holds : Decoder → Type 0
Holds between = Unit
Holds (inside held todo lo hi) = All IsByte held

abbrev Typed : Bytes × Decoder → Type 0
Typed (out, d) = All IsByte out × Holds d

replaced : All IsByte replacement
replaced = (omega arith, (omega arith, (omega arith, tt)))

lead-Typed : (c : ℕ) → IsByte c → Typed (lead c)
lead-Typed c h = elim (lead-Lead c) [
  | whole e ↦ rw e ((h, tt), tt)
  | invalid e ↦ rw e (replaced, tt)
  | begins todo lo hi e ↦ rw e (tt, (h, tt))
]

feed-Typed : (d : Decoder) (c : ℕ) → Holds d → IsByte c → Typed (feed d c)
unfolding feed
feed-Typed between c held h = lead-Typed c h
feed-Typed (inside held todo lo hi) c hs h = elim (Bool-cases (leb lo c && leb c hi)) [
  | inl fits ↦ elim (Bool-cases (leb todo 1)) [
    | inl last ↦ rw (feed, fits, last) (All-append IsByte held (c ∷ []) hs (h, tt), tt)
    | inr more ↦ rw (feed, fits, more) (tt, All-append IsByte held (c ∷ []) hs (h, tt))
  ]
  | inr misfit ↦
      let (out, d) = lead-Typed c h in
      rw (feed, misfit) (All-append IsByte replacement (lead c).0 replaced out, d)
]

finish-IsByte : (d : Decoder) → All IsByte (finish d)
unfolding finish
finish-IsByte between = tt
finish-IsByte (inside held todo lo hi) = replaced

decode-IsByte : (d : Decoder) (s : Bytes) → Holds d → All IsByte s → All IsByte (decode d s)
unfolding decode
decode-IsByte d [] held h = finish-IsByte d
decode-IsByte d (c ∷ s) held (hc, h) =
    let (out, held') = feed-Typed d c held hc in
    All-append IsByte (feed d c).0 _ out (decode-IsByte (feed d c).1 s held' h)

pub from_utf8_lossy-IsByte : (s : Bytes) → All IsByte s → All IsByte (from_utf8_lossy s)
unfolding from_utf8_lossy
from_utf8_lossy-IsByte s h = decode-IsByte between s tt h
