-- ===== src/Std/Utf8/Lossy.antt =====
-- The output of `from_utf8_lossy`, by the state of its decoder.
use vs_vpn.Prelude.{
  ℕ, ◌-◌, ◌≡◌, refl, ap, sym, ◌∙◌, [], ◌∷◌, ◌++◌, append_assoc, Bytes, true, false, ◌&&◌, leb, ltb,
  ◌==◌, Bool-cases, inl, inr,
}
use vs_vpn.Std.Utf8.{
  Decoder, between, inside, replacement, lead, feed, finish, decode, from_utf8_lossy, IsWellEncoded,
}

-- What a first byte can come to.
pub data Lead (c : ℕ) : Type 0 where
  whole : lead c ≡ (c ∷ [], between) → Lead c
  invalid : lead c ≡ (replacement, between) → Lead c
  begins : (todo lo hi : ℕ) → lead c ≡ ([], inside (c ∷ []) todo lo hi) → Lead c

pub lead-Lead : (c : ℕ) → Lead c
unfolding lead
lead-Lead c = elim (Bool-cases (ltb c 0x80)) [
  | inl e ↦ whole (rw e refl)
  | inr e ↦ elim (Bool-cases (ltb c 0xc2)) [
    | inl f ↦ invalid (rw (e, f) refl)
    | inr f ↦ elim (Bool-cases (ltb c 0xe0)) [
      | inl g ↦ begins 1 0x80 0xbf (rw (e, f, g) refl)
      | inr g ↦ elim (Bool-cases (c == 0xe0)) [
        | inl h ↦ begins 2 0xa0 0xbf (rw (e, f, g, h) refl)
        | inr h ↦ elim (Bool-cases (c == 0xed)) [
          | inl i ↦ begins 2 0x80 0x9f (rw (e, f, g, h, i) refl)
          | inr i ↦ elim (Bool-cases (ltb c 0xf0)) [
            | inl j ↦ begins 2 0x80 0xbf (rw (e, f, g, h, i, j) refl)
            | inr j ↦ elim (Bool-cases (c == 0xf0)) [
              | inl k ↦ begins 3 0x90 0xbf (rw (e, f, g, h, i, j, k) refl)
              | inr k ↦ elim (Bool-cases (ltb c 0xf4)) [
                | inl l ↦ begins 3 0x80 0xbf (rw (e, f, g, h, i, j, k, l) refl)
                | inr l ↦ elim (Bool-cases (c == 0xf4)) [
                  | inl m ↦ begins 3 0x80 0x8f (rw (e, f, g, h, i, j, k, l, m) refl)
                  | inr m ↦ invalid (rw (e, f, g, h, i, j, k, l, m) refl)
                ]
              ]
            ]
          ]
        ]
      ]
    ]
  ]
]

decode-cons :
    (d d' : Decoder) (c : ℕ) (out rest : Bytes)
    → feed d c ≡ (out, d')
    → decode d (c ∷ rest) ≡ out ++ decode d' rest
unfolding decode
decode-cons d d' c out rest e = ap (λ p. p.0 ++ decode p.1 rest) e

decode-replacement :
    (rest : Bytes) → decode between (replacement ++ rest) ≡ replacement ++ decode between rest
unfolding decode
decode-replacement rest = refl

-- Reading the bytes that a decoder holds leads to it.
abbrev Held : Decoder → Type 0
Held between = Unit
Held (inside held todo lo hi) =
    (rest : Bytes) → decode between (held ++ rest) ≡ decode (inside held todo lo hi) rest

abbrev Kept : Decoder → Bytes → Type 0
Kept d s = decode between (decode d s) ≡ decode d s

feed-lead : (c : ℕ) → feed between c ≡ lead c
unfolding feed
feed-lead c = refl

lead_kept :
    (c : ℕ) (s : Bytes) → ((d : Decoder) → Held d → Kept d s) → Lead c → Kept between (c ∷ s)
lead_kept c s later (whole e) =
    let step : decode between (c ∷ s) ≡ c ∷ decode between s =
      decode-cons between between c (c ∷ []) s (feed-lead c ∙ e) in
    ap (decode between) step
    ∙ decode-cons between between c (c ∷ []) (decode between s) (feed-lead c ∙ e)
    ∙ ap (λ xs. c ∷ xs) (later between tt)
    ∙ sym step
lead_kept c s later (invalid e) =
    let step : decode between (c ∷ s) ≡ replacement ++ decode between s =
      decode-cons between between c replacement s (feed-lead c ∙ e) in
    ap (decode between) step
    ∙ decode-replacement (decode between s)
    ∙ ap (λ xs. replacement ++ xs) (later between tt)
    ∙ sym step
lead_kept c s later (begins todo lo hi e) =
    let d : Decoder = inside (c ∷ []) todo lo hi in
    let step : (rest : Bytes) → decode between (c ∷ rest) ≡ decode d rest =
      λ rest. decode-cons between d c [] rest (feed-lead c ∙ e) in
    ap (decode between) (step s) ∙ later d step ∙ sym (step s)

module _ (held : Bytes) (todo lo hi c : ℕ) where
  feed_last :
      (leb lo c && leb c hi) ≡ true
      → leb todo 1 ≡ true
      → feed (inside held todo lo hi) c ≡ (held ++ c ∷ [], between)
  unfolding feed
  feed_last p q = rw (p, q) refl

  feed_next :
      (leb lo c && leb c hi) ≡ true
      → leb todo 1 ≡ false
      → feed (inside held todo lo hi) c ≡ ([], inside (held ++ c ∷ []) (todo - 1) 0x80 0xbf)
  unfolding feed
  feed_next p q = rw (p, q) refl

  feed_misfit :
      (leb lo c && leb c hi) ≡ false
      → feed (inside held todo lo hi) c ≡ (replacement ++ (lead c).0, (lead c).1)
  unfolding feed
  feed_misfit p = rw p refl

kept : (d : Decoder) (s : Bytes) → Held d → Kept d s
unfolding decode finish
kept between [] h = refl
kept (inside held todo lo hi) [] h = decode-replacement []
kept between (c ∷ s) h = lead_kept c s (λ d. kept d s) (lead-Lead c)
kept (inside held todo lo hi) (c ∷ s) h = elim (Bool-cases (leb lo c && leb c hi)) [
  | inl p ↦ elim (Bool-cases (leb todo 1)) [
    | inl q ↦
        let e = feed_last held todo lo hi c p q in
        let step = decode-cons (inside held todo lo hi) between c (held ++ c ∷ []) s e in
        ap (decode between) step
        ∙ ap (decode between) (append_assoc held (c ∷ []) (decode between s))
        ∙ h (c ∷ decode between s)
        ∙ decode-cons (inside held todo lo hi) between c (held ++ c ∷ []) (decode between s) e
        ∙ ap (λ xs. (held ++ c ∷ []) ++ xs) (kept between s tt)
        ∙ sym step
    | inr q ↦
        let d : Decoder = inside (held ++ c ∷ []) (todo - 1) 0x80 0xbf in
        let e = feed_next held todo lo hi c p q in
        let step = decode-cons (inside held todo lo hi) d c [] s e in
        ap (decode between) step
        ∙ kept d s (λ rest.
          ap (decode between) (append_assoc held (c ∷ []) rest)
          ∙ h (c ∷ rest)
          ∙ decode-cons (inside held todo lo hi) d c [] rest e)
        ∙ sym step
  ]
  | inr p ↦
      let step =
        decode-cons (inside held todo lo hi) (lead c).1 c (replacement ++ (lead c).0) s
          (feed_misfit held todo lo hi c p)
        ∙ append_assoc replacement (lead c).0 (decode (lead c).1 s)
        ∙ ap (λ xs. replacement ++ xs)
            (sym (decode-cons between (lead c).1 c (lead c).0 s (feed-lead c))) in
      ap (decode between) step
      ∙ decode-replacement (decode between (c ∷ s))
      ∙ ap (λ xs. replacement ++ xs) (lead_kept c s (λ d. kept d s) (lead-Lead c))
      ∙ sym step
]

pub from_utf8_lossy-IsWellEncoded : (s : Bytes) → IsWellEncoded (from_utf8_lossy s)
unfolding from_utf8_lossy
from_utf8_lossy-IsWellEncoded s = kept between s tt
