-- ===== src/Prelude/Lists.antt =====
-- Lists measured and cut by native numbers, under the library's names.
use Prim.Native.Nat.{ℕ, zero, suc, ◌+◌, ◌-◌, ◌≤◌, ◌<◌}
use mathlib.Core.Path.{◌≡◌, refl, ap, sym, ◌∙◌}
use mathlib.Core.List.{List, [], ◌∷◌, ◌++◌, append_assoc}
use mathlib.Core.Logic.{◌≢◌, ◌⊎◌, inl, inr}
use mathlib.Core.Option.{Option, none, some}
use native.Mathlib.Omega.{arith}

-- A sequence of bytes, and a Rust string as its UTF-8 bytes.
abbrev pub Bytes : Type 0
Bytes = List ℕ

module _ {ℓ} {A : Type ℓ} where
  abbrev pub length : List A → ℕ
  length [] = 0
  length (x ∷ xs) = suc (length xs)

  abbrev pub get_elem? : List A → ℕ → Option A
  get_elem? [] i = none
  get_elem? (x ∷ xs) zero = some x
  get_elem? (x ∷ xs) (suc i) = get_elem? xs i

  abbrev pub get_or : List A → ℕ → A → A
  get_or [] i d = d
  get_or (x ∷ xs) zero d = x
  get_or (x ∷ xs) (suc i) d = get_or xs i d

  abbrev pub take : ℕ → List A → List A
  take zero xs = []
  take (suc n) [] = []
  take (suc n) (x ∷ xs) = x ∷ take n xs

  abbrev pub drop : ℕ → List A → List A
  drop zero xs = xs
  drop (suc n) [] = []
  drop (suc n) (x ∷ xs) = drop n xs

  abbrev pub replicate : ℕ → A → List A
  replicate zero a = []
  replicate (suc n) a = a ∷ replicate n a

  abbrev pub flat : List (List A) → List A
  flat [] = []
  flat (xs ∷ xss) = xs ++ flat xss

  pub length-append : (xs ys : List A) → length (xs ++ ys) ≡ length xs + length ys
  length-append [] ys = omega arith
  length-append (x ∷ xs) ys = omega (arith, length-append xs ys)

  pub take-append : (xs ys : List A) → take (length xs) (xs ++ ys) ≡ xs
  take-append [] ys = refl
  take-append (x ∷ xs) ys = ap (λ zs. x ∷ zs) (take-append xs ys)

  pub drop-append : (xs ys : List A) → drop (length xs) (xs ++ ys) ≡ ys
  drop-append [] ys = refl
  drop-append (x ∷ xs) ys = drop-append xs ys

  pub take-append-drop : (n : ℕ) (xs : List A) → take n xs ++ drop n xs ≡ xs
  take-append-drop zero xs = refl
  take-append-drop (suc n) [] = refl
  take-append-drop (suc n) (x ∷ xs) = ap (λ zs. x ∷ zs) (take-append-drop n xs)

  pub length-take : (n : ℕ) (xs : List A) → n ≤ length xs → length (take n xs) ≡ n
  length-take zero xs h = refl
  length-take (suc n) [] h = absurd (omega arith)
  length-take (suc n) (x ∷ xs) h = ap suc (length-take n xs (omega arith))

  pub length-drop : (n : ℕ) (xs : List A) → length (drop n xs) ≡ length xs - n
  length-drop zero xs = omega arith
  length-drop (suc n) [] = omega arith
  length-drop (suc n) (x ∷ xs) = omega (arith, length-drop n xs)

  pub get_elem?-lt : (xs : List A) (i : ℕ) (x : A) → get_elem? xs i ≡ some x → i < length xs
  get_elem?-lt [] i x h = absurd (cc)
  get_elem?-lt (y ∷ xs) zero x h = omega arith
  get_elem?-lt (y ∷ xs) (suc i) x h = omega (arith, get_elem?-lt xs i x h)

  pub get_elem?-drop :
      (xs : List A) (i : ℕ) (x : A) → get_elem? xs i ≡ some x → drop i xs ≡ x ∷ drop (suc i) xs
  get_elem?-drop [] i x h = absurd (cc)
  get_elem?-drop (y ∷ xs) zero x h = cc
  get_elem?-drop (y ∷ xs) (suc i) x h = get_elem?-drop xs i x h

  pub length-replicate : (n : ℕ) (a : A) → length (replicate n a) ≡ n
  length-replicate zero a = refl
  length-replicate (suc n) a = ap suc (length-replicate n a)

pub flat-take-drop {ℓ} :
    {A : Type ℓ} (n : ℕ) (xss : List (List A)) → flat (take n xss) ++ flat (drop n xss) ≡ flat xss
flat-take-drop zero xss = refl
flat-take-drop (suc n) [] = refl
flat-take-drop (suc n) (xs ∷ xss) =
    append_assoc xs (flat (take n xss)) (flat (drop n xss))
    ∙ ap (λ ys. xs ++ ys) (flat-take-drop n xss)

-- Fronts of the same length of the same list
pub append_left {ℓ} :
    {A : Type ℓ} (xs ys us vs : List A) → length xs ≡ length us → xs ++ ys ≡ us ++ vs → xs ≡ us
append_left xs ys us vs h e =
    sym (take-append xs ys)
    ∙ ap (take (length xs)) e
    ∙ ap (λ (n : ℕ). take n (us ++ vs)) h
    ∙ take-append us vs

-- A list cut behind two given places.
pub split_two {ℓ} :
    {A : Type ℓ} (k : ℕ) (xs : List A) (d : A)
    → k + 2 ≤ length xs
    → (rest : List A) × (xs ≡ take k xs ++ get_or xs k d ∷ get_or xs (suc k) d ∷ rest)
split_two k [] d h = absurd (omega arith)
split_two k (x ∷ []) d h = absurd (omega arith)
split_two zero (x ∷ y ∷ xs) d h = (xs, refl)
split_two (suc k) (x ∷ y ∷ xs) d h =
    let (rest, e) = split_two k (y ∷ xs) d (omega arith) in (rest, ap (λ zs. x ∷ zs) e)

-- Predicates on every element.
module _ {ℓ κ} {A : Type ℓ} (P : A → Type κ) where
  abbrev pub All : List A → Type κ
  All [] = Unit
  All (x ∷ xs) = P x × All xs

  pub All-append : (xs ys : List A) → All xs → All ys → All (xs ++ ys)
  All-append [] ys _ hy = hy
  All-append (x ∷ xs) ys (px, hx) hy = (px, All-append xs ys hx hy)

  pub All-drop : (n : ℕ) (xs : List A) → All xs → All (drop n xs)
  All-drop zero xs h = h
  All-drop (suc n) [] h = h
  All-drop (suc n) (x ∷ xs) (px, h) = All-drop n xs h

  pub All-take : (n : ℕ) (xs : List A) → All xs → All (take n xs)
  All-take zero xs h = tt
  All-take (suc n) [] h = tt
  All-take (suc n) (x ∷ xs) (px, h) = (px, All-take n xs h)

pub All-map {ℓ κ μ} :
    {A : Type ℓ} {P : A → Type κ} {Q : A → Type μ}
    → ((a : A) → P a → Q a)
    → (xs : List A) → All P xs
    → All Q xs
All-map f [] h = tt
All-map f (x ∷ xs) (px, h) = (f x px, All-map f xs h)

abbrev pub IsByte : ℕ → Type 0
IsByte b = b < 256

pub head_eq {ℓ} : {A : Type ℓ} {x y : A} {xs ys : List A} → x ∷ xs ≡ y ∷ ys → x ≡ y
head_eq e = cc

tail_eq : {x y : ℕ} {xs ys : Bytes} → x ∷ xs ≡ y ∷ ys → xs ≡ ys
tail_eq e = cc

-- A front that is no longer than `bytes` is the front of `bytes`.
pub cut :
    (front behind bytes rest : Bytes)
    → bytes ++ rest ≡ front ++ behind
    → length front ≤ length bytes
    → (more : Bytes) × (bytes ≡ front ++ more) × (behind ≡ more ++ rest)
cut [] behind bytes rest e h = (bytes, refl, sym e)
cut (x ∷ front) behind [] rest e h = absurd (omega arith)
cut (x ∷ front) behind (y ∷ bytes) rest e h =
    let (more, p, q) = cut front behind bytes rest (tail_eq e) (omega arith) in
    (more, rw (head_eq e, p) refl, q)

pub nil-cases : (xs : Bytes) → (xs ≡ []) ⊎ (xs ≢ [])
nil-cases [] = inl refl
nil-cases (x ∷ xs) = inr (λ e. cc)
