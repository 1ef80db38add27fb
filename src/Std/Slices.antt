-- ===== src/Std/Slices.antt =====
-- Indexing and slicing, which panic out of range.
use vs_vpn.Prelude.{
  ℕ, ◌+◌, ◌-◌, ◌≤◌, ◌<◌, ◌≡◌, zero, suc, [], ◌∷◌, Bytes, length, take, drop, leb, if◌then◌else◌,
  arith, refl, ◌++◌, ◌∙◌, ap, length-append, drop-append, take-append, append_assoc, All, All-take,
  All-drop, IsByte, Bool-cases, inl, inr, subst, sym,
}
use vs_vpn.Outcome.{Outcome, ok, panic, ok_injective}

-- `data[i]`
unfoldable pub index : Bytes → ℕ → Outcome ℕ
index [] i = panic
index (b ∷ bs) zero = ok b
index (b ∷ bs) (suc i) = index bs i

-- `data[lo..hi]`
unfoldable pub slice : Bytes → ℕ → ℕ → Outcome Bytes
slice bs lo hi =
    if leb lo hi
    then (if leb hi (length bs) then ok (take (hi - lo) (drop lo bs)) else panic)
    else panic

pub index_in_range : (bs : Bytes) (i : ℕ) → i < length bs → (b : ℕ) × (index bs i ≡ ok b)
unfolding index
index_in_range [] i h = absurd (omega arith)
index_in_range (b ∷ bs) zero h = (b, refl)
index_in_range (b ∷ bs) (suc i) h = index_in_range bs i (omega arith)

pub slice_in_range :
    (bs : Bytes) (lo hi : ℕ)
    → lo ≤ hi
    → hi ≤ length bs
    → slice bs lo hi ≡ ok (take (hi - lo) (drop lo bs))
unfolding slice
slice_in_range bs lo hi h k = ground arith

pub index-append : (xs ys : Bytes) (y i : ℕ) → i ≡ length xs → index (xs ++ y ∷ ys) i ≡ ok y
unfolding index
index-append [] ys y i h = rw h
index-append (x ∷ xs) ys y i h = rw h (index-append xs ys y (length xs) refl)

pub slice-append :
    (xs ys zs : Bytes) (lo hi : ℕ)
    → lo ≡ length xs
    → hi ≡ length xs + length ys
    → slice (xs ++ ys ++ zs) lo hi ≡ ok ys
slice-append xs ys zs lo hi h k =
    slice_in_range _ lo hi (omega arith) (simp length-append (omega arith))
    ∙ rw (h, append_assoc, drop-append, count) (ap ok (take-append ys zs))
  where
    count : hi - length xs ≡ length ys
    count = omega arith

pub index-IsByte : (bs : Bytes) (i b : ℕ) → All IsByte bs → index bs i ≡ ok b → IsByte b
unfolding index
index-IsByte [] i b h e = absurd (cc)
index-IsByte (c ∷ bs) zero b (hc, h) e = rw (sym (ok_injective e)) hc
index-IsByte (c ∷ bs) (suc i) b (hc, h) e = index-IsByte bs i b h e

pub slice-IsByte :
    (bs : Bytes) (lo hi : ℕ) (s : Bytes) → All IsByte bs → slice bs lo hi ≡ ok s → All IsByte s
unfolding slice
slice-IsByte bs lo hi s h e = elim (Bool-cases (leb lo hi)) [
  | inl f ↦ elim (Bool-cases (leb hi (length bs))) [
    | inl g ↦
        subst (All IsByte) (ok_injective (rw (slice, f, g) at e))
          (All-take IsByte (hi - lo) (drop lo bs) (All-drop IsByte lo bs h))
    | inr g ↦ absurd (panic-ne-ok (rw (slice, f, g) at e))
  ]
  | inr f ↦ absurd (panic-ne-ok (rw (slice, f) at e))
]
  where
    panic-ne-ok : {a : Bytes} → panic ≡ ok a → ⊥
    panic-ne-ok p = cc
