-- ===== src/Std/Text/Numbers.antt =====
-- The printed form of a number, parsed and searched.
use vs_vpn.Prelude.{
  ℕ, zero, suc, ◌+◌, ◌*◌, ◌-◌, ◌/◌, ◌%◌, ◌^◌, ◌≤◌, ◌<◌, ◌≡◌, ◌≢◌, refl, ap, ◌∙◌, [], ◌∷◌, ◌++◌,
  arith, Bytes, All, false, ◌&&◌, none, some, leb, ltb, Bool-cases, inl, inr, ◌==◌, ==_refl,
}
use vs_vpn.Std.Format.{show, show_digits}
use vs_vpn.Std.Text.{digits_value, parse_unsigned, rsplit_once}

abbrev pub IsDigit : ℕ → Type 0
IsDigit c = (b'0' ≤ c) × (c ≤ b'9')

All-snoc : (xs : Bytes) (d : ℕ) → All IsDigit xs → IsDigit d → All IsDigit (xs ++ d ∷ [])
All-snoc [] d h k = (k, tt)
All-snoc (x ∷ xs) d (hx, h) k = (hx, All-snoc xs d h k)

pub show_digits-IsDigit : (f n : ℕ) → All IsDigit (show_digits f n)
unfolding show_digits
show_digits-IsDigit zero n = tt
show_digits-IsDigit (suc f) n = elim (Bool-cases (ltb n 10)) [
  | inl e ↦ rw e (ground arith, tt)
  | inr e ↦ rw e (
      All-snoc (show_digits f (n / 10)) (b'0' + n % 10) (show_digits-IsDigit f (n / 10))
        (ground arith))
]

none_ne_some : (v : ℕ) → none ≢ some v
none_ne_some v h = cc

some_injective : (a b : ℕ) → some a ≡ some b → a ≡ b
some_injective a b e = cc

one_digit :
    (bound acc d : ℕ)
    → d < 10
    → acc * 10 + d ≤ bound
    → digits_value bound acc ((b'0' + d) ∷ []) ≡ some (acc * 10 + d)
unfolding digits_value
one_digit bound acc d h k = ground arith

digits_value-snoc :
    (bound acc : ℕ) (xs : Bytes) (v d : ℕ)
    → digits_value bound acc xs ≡ some v
    → d < 10
    → v * 10 + d ≤ bound
    → digits_value bound acc (xs ++ (b'0' + d) ∷ []) ≡ some (v * 10 + d)
unfolding digits_value
digits_value-snoc bound acc [] v d e h k =
    let same : acc ≡ v = some_injective acc v e in
    one_digit bound acc d h (omega arith) ∙ ap some (omega arith)
digits_value-snoc bound acc (x ∷ xs) v d e h k = elim (Bool-cases (leb b'0' x && leb x b'9')) [
  | inr p ↦ absurd (none_ne_some v (rw p at e))
  | inl p ↦ elim (Bool-cases (leb (acc * 10 + (x - b'0')) bound)) [
    | inr q ↦ absurd (none_ne_some v (rw (p, q) at e))
    | inl q ↦
        let below : digits_value bound (acc * 10 + (x - b'0')) xs ≡ some v = rw (p, q) at e in
        rw (p, q) (digits_value-snoc bound (acc * 10 + (x - b'0')) xs v d below h k)
  ]
]

pub digits_value-show_digits :
    (f bound n : ℕ) → n < 10 ^ f → n ≤ bound → digits_value bound 0 (show_digits f n) ≡ some n
unfolding show_digits digits_value
digits_value-show_digits zero bound n h k = ap some (omega arith)
digits_value-show_digits (suc f) bound n h k = elim (Bool-cases (ltb n 10)) [
  | inl e ↦ rw e (one_digit bound 0 n (ground arith) (omega arith) ∙ ap some (omega arith))
  | inr e ↦ rw e (
      digits_value-snoc bound 0 (show_digits f (n / 10)) (n / 10) (n % 10)
        (digits_value-show_digits f bound (n / 10) (omega arith) (omega arith)) (omega arith)
        (omega arith)
      ∙ ap some (omega arith))
]

snoc-ne-nil : (xs : Bytes) (d : ℕ) → xs ++ d ∷ [] ≢ []
snoc-ne-nil [] d h = cc
snoc-ne-nil (x ∷ xs) d h = cc

show_digits-ne-nil : (f n : ℕ) → show_digits (suc f) n ≢ []
unfolding show_digits
show_digits-ne-nil f n = elim (Bool-cases (ltb n 10)) [
  | inl e ↦ rw e (snoc-ne-nil [] (b'0' + n))
  | inr e ↦ rw e (snoc-ne-nil (show_digits f (n / 10)) (b'0' + n % 10))
]

unsigned-digits :
    (bound : ℕ) (s : Bytes)
    → s ≢ []
    → All IsDigit s
    → parse_unsigned bound s ≡ digits_value bound 0 s
unfolding parse_unsigned
unsigned-digits bound [] h k = absurd (h refl)
unsigned-digits bound (c ∷ []) h (hc, k) = rw (no_plus c hc) refl
  where
    no_plus : (c : ℕ) → IsDigit c → (c == b'+') ≡ false
    no_plus c h = ground arith
unsigned-digits bound (c ∷ d ∷ cs) h (hc, k) = rw (no_plus c hc) refl
  where
    no_plus : (c : ℕ) → IsDigit c → (c == b'+') ≡ false
    no_plus c h = ground arith

pub parse_unsigned-show :
    (bound n : ℕ) → n < 10 ^ 20 → n ≤ bound → parse_unsigned bound (show n) ≡ some n
unfolding show
parse_unsigned-show bound n h k =
    unsigned-digits bound (show_digits 20 n) (show_digits-ne-nil 19 n) (show_digits-IsDigit 20 n)
    ∙ digits_value-show_digits 20 bound n h k

pub rsplit_once-last :
    (c : ℕ) (before behind : Bytes)
    → All (λ x. x ≢ c) behind
    → rsplit_once c (before ++ c ∷ behind) ≡ some (before, behind)
unfolding rsplit_once
rsplit_once-last c [] behind h = rw (absent behind h, ==_refl c) refl
  where
    differs : (x c : ℕ) → x ≢ c → (x == c) ≡ false
    differs x c k = ground arith

    absent : (xs : Bytes) → All (λ x. x ≢ c) xs → rsplit_once c xs ≡ none
    absent [] h = refl
    absent (x ∷ xs) (hx, h) = rw (absent xs h, differs x c hx) refl
rsplit_once-last c (x ∷ before) behind h = rw (rsplit_once-last c before behind h) refl
