-- ===== src/Std/Asserts.antt =====
-- The assertions of the source's own tests: a test comes to a value, or panics.
use Prim.Native.Char.{code}
use Prim.Native.String.{String}
use vs_vpn.Prelude.{
  ℕ, ◌≡◌, refl, inl, inr, Bool-cases, ==_refl, arith, [], ◌∷◌, Bytes, Bool, true, false, Option,
  none, some, ◌==◌, ◌&&◌,
}
use vs_vpn.Outcome.{Outcome, ok, err, panic}

abbrev pub equal_bytes : Bytes → Bytes → Bool
equal_bytes [] [] = true
equal_bytes (x ∷ xs) (y ∷ ys) = (x == y) && equal_bytes xs ys
equal_bytes [] (y ∷ ys) = false
equal_bytes (x ∷ xs) [] = false

pub equal_bytes_refl : (xs : Bytes) → equal_bytes xs xs ≡ true
equal_bytes_refl [] = refl
equal_bytes_refl (x ∷ xs) = rw (==_refl x) (equal_bytes_refl xs)

pub equal_bytes-eq : (xs ys : Bytes) → equal_bytes xs ys ≡ true → xs ≡ ys
equal_bytes-eq [] [] h = refl
equal_bytes-eq [] (y ∷ ys) h = absurd (cc)
equal_bytes-eq (x ∷ xs) [] h = absurd (cc)
equal_bytes-eq (x ∷ xs) (y ∷ ys) h = elim (Bool-cases (x == y)) [
  | inl e ↦ rw (same x y e, equal_bytes-eq xs ys (rw e at h)) refl
  | inr e ↦ absurd (cc (rw e at h))
]
  where
    same : (a b : ℕ) → (a == b) ≡ true → a ≡ b
    same a b e = ground arith

-- `assert!`
abbrev pub assert : Bool → Outcome (Unit {0})
assert true = ok tt
assert false = panic

-- `result.is_err()`
abbrev pub is_err : {A : Type 0} → Outcome A → Bool
is_err (ok a) = false
is_err (err e) = true
is_err panic = false

-- `result.unwrap()`, of a result and of an option
abbrev pub unwrap : {A : Type 0} → Outcome A → Outcome A
unwrap (ok a) = ok a
unwrap (err e) = panic
unwrap panic = panic

abbrev pub unwrap_some : {A : Type 0} → Option A → Outcome A
unwrap_some (some a) = ok a
unwrap_some none = panic

-- `action.await.unwrap()`, with the state behind it
abbrev pub completed : {S A : Type 0} → Outcome A × S → Outcome (A × S)
completed (ok a, s) = ok (a, s)
completed (err e, s) = panic
completed (panic, s) = panic

-- The bytes of an ASCII literal.
abbrev pub codes : String → Bytes
codes String.[] = []
codes (String.◌∷◌ c s) = code c ∷ codes s
