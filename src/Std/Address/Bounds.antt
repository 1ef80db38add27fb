-- ===== src/Std/Address/Bounds.antt =====
-- The octets of the addresses that are read.
use vs_vpn.Prelude.{
  ℕ, zero, suc, ◌+◌, ◌-◌, ◌*◌, ◌≤◌, ◌≡◌, refl, [], ◌∷◌, ◌++◌, arith, Bytes, Bool, true, false, none,
  some, Option, Option-cases, Bool-cases, inl, inr, subst, length, ltb, ltb→le, ◌==◌, replicate,
  All, All-append, IsByte, if◌then◌else◌,
}
use vs_vpn.Std.Words.{to_be_bytes}
use vs_vpn.Std.Address.{
  ◌>>=◌, to_digit, read_digits, read_number, read_octet, read_ipv4, parse_ipv4, read_given_char,
  separated, read_group, read_groups, read_ipv6, parse_ipv6, whole,
}

absent : {A : Type 0} {a : A} → none ≡ some a → ⊥
absent e = cc

some_injective : {A : Type 0} {a b : A} → some a ≡ some b → a ≡ b
some_injective e = cc

-- What a chain of options that comes to a value has come through.
bind-some :
    {A B : Type 0} (m : Option A) (f : A → Option B) {b : B}
    → m >>= f ≡ some b
    → (a : A) × (m ≡ some a) × (f a ≡ some b)
bind-some none f h = absurd (absent h)
bind-some (some a) f h = (a, refl, h)

whole-some : {A : Type 0} {o : A} (x : A) (left : Bytes) → whole (x, left) ≡ some o → x ≡ o
whole-some x [] f = some_injective f
whole-some x (c ∷ left) f = absurd (absent f)

read_digits-le :
    (radix bound most : ℕ) (s : Bytes) (acc n v m : ℕ) (rest : Bytes)
    → acc ≤ bound
    → read_digits radix bound most s acc n ≡ some (v, m, rest)
    → v ≤ bound
unfolding read_digits
read_digits-le radix bound most [] acc n v m rest h e = ground arith
read_digits-le radix bound most (c ∷ cs) acc n v m rest h e =
    elim (Option-cases (to_digit radix c)) [
      | inl d ↦ ground arith
      | inr (k, d) ↦ elim (Bool-cases (ltb bound (acc * radix + k))) [
        | inl over ↦ absurd (absent (rw (d, read_digits, over) at e))
        | inr fits ↦
            read_digits-le radix bound most cs (acc * radix + k) (n + 1) v m rest (ltb→le _ _ fits)
              (ground arith)
      ]
    ]

read_number-le :
    (radix bound most : ℕ) (zeros : Bool) (s : Bytes) (v : ℕ) (rest : Bytes)
    → read_number radix bound most zeros s ≡ some (v, rest)
    → v ≤ bound
unfolding read_number
read_number-le radix bound most zeros s v rest e =
    let ((value, n, left), d, f) = bind-some (read_digits radix bound most s 0 0) _ e in
    let in_bound : value ≤ bound =
      read_digits-le radix bound most s 0 0 value n left (omega arith) d in
    ground arith

read_octet-IsByte : (s : Bytes) (v : ℕ) (rest : Bytes) → read_octet s ≡ some (v, rest) → IsByte v
unfolding read_octet
read_octet-IsByte s v rest e = omega (arith, read_number-le 10 255 3 false s v rest e)

same : (x y u v : Bytes) → ◌≡◌ {A = Option (Bytes × Bytes)} (some (x, u)) (some (y, v)) → x ≡ y
same x y u v h = cc

pub read_ipv4-IsByte : (s o rest : Bytes) → read_ipv4 s ≡ some (o, rest) → All IsByte o
unfolding read_ipv4
read_ipv4-IsByte s o rest e =
    let ((a, s₁), p, e₁) = bind-some (read_octet s) _ e in
    let (t₁, _, f₁) = bind-some (read_given_char b'.' s₁) _ e₁ in
    let ((b, s₂), q, e₂) = bind-some (read_octet t₁) _ f₁ in
    let (t₂, _, f₂) = bind-some (read_given_char b'.' s₂) _ e₂ in
    let ((c, s₃), r, e₃) = bind-some (read_octet t₂) _ f₂ in
    let (t₃, _, f₃) = bind-some (read_given_char b'.' s₃) _ e₃ in
    let ((d, s₄), t, e₄) = bind-some (read_octet t₃) _ f₃ in
    subst (All IsByte) (same (a ∷ b ∷ c ∷ d ∷ []) o s₄ rest e₄) (
      read_octet-IsByte _ a _ p,
      (read_octet-IsByte _ b _ q, (read_octet-IsByte _ c _ r, (read_octet-IsByte _ d _ t, tt))),
    )

pub parse_ipv4-IsByte : (s o : Bytes) → parse_ipv4 s ≡ some o → All IsByte o
unfolding parse_ipv4
parse_ipv4-IsByte s o e = elim (Bool-cases (ltb 15 (length s))) [
  | inl long ↦ absurd (absent (rw (parse_ipv4, long) at e))
  | inr short ↦
      let ((x, left), p, f) = bind-some (read_ipv4 s) whole (rw (parse_ipv4, short) at e) in
      subst (All IsByte) (whole-some x left f) (read_ipv4-IsByte s x left p)
]

group_bytes : (g : ℕ) → All IsByte (to_be_bytes g)
unfolding to_be_bytes
group_bytes g = (omega arith, (omega arith, tt))

separated-ipv4-IsByte :
    (first : Bool) (s o rest : Bytes) → separated first read_ipv4 s ≡ some (o, rest) → All IsByte o
unfolding separated
separated-ipv4-IsByte true s o rest h = read_ipv4-IsByte s o rest h
separated-ipv4-IsByte false s o rest h =
    let (t, _, e) = bind-some (read_given_char b':' s) read_ipv4 h in read_ipv4-IsByte t o rest e

room-IsByte :
    (room : ℕ) (first : Bool) (s o rest : Bytes)
    → (if room == 0 then none else separated first read_ipv4 s) ≡ some (o, rest)
    → All IsByte o
room-IsByte zero first s o rest h = absurd (absent h)
room-IsByte (suc room) first s o rest h = separated-ipv4-IsByte first s o rest (ground arith)

read_groups-IsByte : (room : ℕ) (first : Bool) (s : Bytes) → All IsByte (read_groups room first s).0
unfolding read_groups
read_groups-IsByte zero first s = tt
read_groups-IsByte (suc room) first s =
    elim (Option-cases (if room == 0 then none else separated first read_ipv4 s)) [
      | inl e ↦
          rw (e, read_groups)
            (elim (Option-cases (separated first read_group s)) [
              | inl k ↦ rw (k, read_groups) tt
              | inr ((g, rest), k) ↦
                  rw (k, read_groups)
                    (All-append IsByte (to_be_bytes g) _ (group_bytes g)
                      (read_groups-IsByte room false rest))
            ])
      | inr ((o, rest), e) ↦ rw (e, read_groups) (room-IsByte room first s o rest e)
    ]

zeros-IsByte : (n : ℕ) → All IsByte (replicate n 0)
zeros-IsByte zero = tt
zeros-IsByte (suc n) = (omega arith, zeros-IsByte n)

read_ipv6-IsByte : (s x left : Bytes) → read_ipv6 s ≡ some (x, left) → All IsByte x
unfolding read_ipv6
read_ipv6-IsByte s x left p =
    let (head, n, v4, rest) = read_groups 8 true s in
    elim (Bool-cases (n == 8)) [
      | inl full ↦
          subst (λ r. All IsByte r.0) (some_injective (rw (read_ipv6, full) at p))
            (read_groups-IsByte 8 true s)
      | inr part ↦ elim (Bool-cases v4) [
        | inl dotted ↦ absurd (absent (rw (read_ipv6, part, dotted) at p))
        | inr groups ↦
            let (t, _, p₁) =
              bind-some (read_given_char b':' rest) _ (rw (read_ipv6, part, groups) at p) in
            let (u, _, p₂) = bind-some (read_given_char b':' t) _ p₁ in
            subst (λ r. All IsByte r.0) (some_injective p₂)
              (All-append IsByte (head ++ replicate _ 0) _
                (All-append IsByte head (replicate _ 0) (read_groups-IsByte 8 true s)
                  (zeros-IsByte _))
                (read_groups-IsByte (8 - (n + 1)) true u))
      ]
    ]

pub parse_ipv6-IsByte : (s o : Bytes) → parse_ipv6 s ≡ some o → All IsByte o
unfolding parse_ipv6
parse_ipv6-IsByte s o e =
    let ((x, left), p, f) = bind-some (read_ipv6 s) whole e in
    subst (All IsByte) (whole-some x left f) (read_ipv6-IsByte s x left p)
